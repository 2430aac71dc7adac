-- ===== src/Sessions/Ids.antt =====
-- Session identifiers, `SESSION_ID_RE` of src/modules/agents/services.
use nest_langgraph_ai.Prelude.{Text, Bool, ◌&&◌, ◌||◌, ◌==◌, length, leb, all_of, is_word}

-- `/^[a-zA-Z0-9_-]{1,64}$/.test(sessionId)`.
unfoldable pub is_session_id : Text → Bool
unfolding is_word
is_session_id t = all_of (λ c. is_word c || c == b'-') t && leb 1 (length t) && leb (length t) 64
