-- ===== src/Http/Hosts.antt =====
-- Private, loopback and link-local hosts, `isPrivateHost` of
-- src/modules/agents/tools/http-request.util.ts. What lower case does beyond ASCII changes no answer.
use nest_langgraph_ai.Prelude.{
  Text, Bool, false, ◌&&◌, ◌||◌, ◌==◌, ◌∷◌, codes, map, leb, text_eq, starts_with, is_digit,
  to_lower, drop,
}

-- `(1[6-9]|2\d|3[01])\.` here.
unfoldable pub block_172 : Text → Bool
unfolding is_digit
block_172 (a ∷ b ∷ dot ∷ t) =
    ((a == b'1' && (leb b'6' b && leb b b'9'))
      || (a == b'2' && is_digit b)
      || (a == b'3' && (b == b'0' || b == b'1')))
    && dot == b'.'
block_172 t = false

-- The IPv4 patterns, behind a prefix of the given number of units.
unfoldable pub private_v4 : Text → Bool
unfolding block_172 starts_with
private_v4 h =
    starts_with (codes "127.") h
    || starts_with (codes "10.") h
    || (starts_with (codes "172.") h && block_172 (drop 4 h))
    || starts_with (codes "192.168.") h
    || starts_with (codes "169.254.") h

-- `PRIVATE_PATTERNS.some`.
unfoldable pub matches_private : Text → Bool
unfolding private_v4 text_eq starts_with
matches_private h =
    private_v4 h
    || text_eq h (codes "::1")
    || (starts_with (codes "::ffff:") h && private_v4 (drop 7 h))
    || starts_with (codes "fc00:") h
    || starts_with (codes "fe80:") h

-- `text.toLowerCase()`.
unfoldable pub lower : Text → Text
unfolding to_lower
lower t = map to_lower t

-- `isPrivateHost`.
unfoldable pub is_private_host : Text → Bool
unfolding lower matches_private text_eq
is_private_host host =
    text_eq (lower host) (codes "localhost")
    || text_eq (lower host) (codes "0.0.0.0")
    || matches_private (lower host)
