-- ===== src/Uri/Chars.antt =====
-- The character functions of llvm/ADT/StringExtras.h that lspserver/src/URI.cpp calls: a parameter,
-- with what their documentation says of the characters that the code tells apart.
use nixd.Prelude.{ℕ, ◌+◌, ◌*◌, ◌<◌, Bool, true, false, ◌≡◌}

pub record CharOps : Type 0 where
  -- `llvm::isAlpha`, `llvm::isAlnum`, `llvm::isHexDigit`.
  pub is_alpha : ℕ → Bool
  pub is_alnum : ℕ → Bool
  pub is_hex_digit : ℕ → Bool
  -- `llvm::hexdigit`, `llvm::hexFromNibbles`.
  pub hexdigit : ℕ → ℕ
  pub hex_from_nibbles : ℕ → ℕ → ℕ
  pub is_hex_digit-hexdigit : (n : ℕ) → n < 16 → is_hex_digit (hexdigit n) ≡ true
  pub hex_from_nibbles-hexdigit :
      (m n : ℕ) → m < 16 → n < 16 → hex_from_nibbles (hexdigit m) (hexdigit n) ≡ m * 16 + n
  pub is_hex_digit-is_alnum : (c : ℕ) → is_hex_digit c ≡ true → is_alnum c ≡ true
  pub is_alpha-is_alnum : (c : ℕ) → is_alpha c ≡ true → is_alnum c ≡ true
  pub is_alnum-colon : is_alnum b':' ≡ false
  pub is_alnum-slash : is_alnum b'/' ≡ false
