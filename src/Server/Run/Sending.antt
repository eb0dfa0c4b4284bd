-- ===== src/Server/Run/Sending.antt =====
-- Sending a response in pieces: the rounds of runSend.
use ok.Base.{ℕ, ◌+◌, List, [], ◌∷◌, ◌++◌, take}
use ok.Text.{Bytes}
use ok.Response.{Response}
use ok.Server.Run.{outgoing, advance_send}

-- What the client gets when the calls of `write` take so many bytes each, and the response after
-- them.
unfoldable pub sent_bytes : List ℕ → Response → Bytes
unfolding outgoing advance_send
sent_bytes [] r = []
sent_bytes (n ∷ counts) r = take n (outgoing r) ++ sent_bytes counts (advance_send n r)

unfoldable pub after_sends : List ℕ → Response → Response
unfolding advance_send
after_sends [] r = r
after_sends (n ∷ counts) r = after_sends counts (advance_send n r)

unfoldable pub total : List ℕ → ℕ
total [] = 0
total (n ∷ counts) = n + total counts
