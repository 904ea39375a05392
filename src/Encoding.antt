-- ===== src/Encoding.antt =====
-- native/util/encoding.h: text on its way between the code page of a server and UTF-8.
use opensamp.Prelude.{ℕ, List, [], ◌∷◌}

-- MultiByteToWideChar and WideCharToMultiByte: the characters that they give for a text in a code page,
-- and back. Nothing stands for a result of 0, with which they fail.
pub record CodePages : Type 0 where
  pub wide : ℕ → List ℕ → List ℕ
  pub narrow : ℕ → List ℕ → List ℕ

-- The text, or the one to take where it is empty.
abbrev text_or : List ℕ → List ℕ → List ℕ
text_or [] s = s
text_or (c ∷ cs) s = c ∷ cs

-- CP_UTF8.
abbrev utf8 : ℕ
utf8 = 65001

module _ (windows : CodePages) where
  -- transcode, behind its first call.
  abbrev from_wide : ℕ → List ℕ → List ℕ → List ℕ
  from_wide dst [] s = s
  from_wide dst (c ∷ cs) s = text_or (windows.narrow dst (c ∷ cs)) s

  abbrev transcode : ℕ → ℕ → List ℕ → List ℕ
  transcode src dst [] = []
  transcode src dst (c ∷ cs) = from_wide dst (windows.wide src (c ∷ cs)) (c ∷ cs)

  unfoldable pub cp1251_to_utf8 : List ℕ → List ℕ
  cp1251_to_utf8 s = transcode 1251 utf8 s

  unfoldable pub utf8_to_cp1251 : List ℕ → List ℕ
  utf8_to_cp1251 s = transcode utf8 1251 s
