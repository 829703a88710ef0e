-- ===== src/Encoding/Zstd/Plain.antt =====
-- A codec that stores: the smallest one with the properties that the code of encoding/zstd.go asks of
-- the zstd library.
use opentrace.Base.{ℕ, ◌≡◌, refl, length, leb, if◌then◌else◌, none, some, le→leb}
use opentrace.Encoding.Zstd.{Zstd, IsLossless}

abbrev pub plain : Zstd
plain = record {
  encode_all = λ b. b;
  frame_content_size = λ b. some (length b);
  decode_all = λ m b. if leb (length b) m then some b else none;
}

some_inj : (m n : ℕ) → some m ≡ some n → n ≡ m
some_inj m n h = cc

pub plain-IsLossless : IsLossless plain
plain-IsLossless = record {
  decode-encode = λ m b h. rw (le→leb (length b) m h) refl;
  size-encode = λ b n h. some_inj (length b) n h;
  encode_empty = refl;
  encode_nonempty = λ b h. h;
}
