-- ===== src/Api/Reply.antt =====
-- What a handler writes: an error with its HTTP status and text, or a result with its HTTP status.
use agents_admin.Prelude.{ℕ, String}

pub data Reply (A : Type 0) : Type 0 where
  error : ℕ → String → Reply A
  ok : ℕ → A → Reply A
