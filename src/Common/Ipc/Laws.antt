-- ===== src/Common/Ipc/Laws.antt =====
-- The lines of crates/common/src/ipc.rs, written and read.
use neals.Prelude.{◌≡◌, refl, false, [], ◌∷◌, ◌++◌, arith}
use neals.Prelude.Outcome.{Outcome, ok, err}
use neals.Prelude.Text.{Str, is_empty, contains_char}
use neals.Prelude.Text.Lines.{IsPlain}
use neals.Common.Ipc.{Serde, trim_line, encode_line, decode_line, finish_line, LineError}

-- JSON without line breaks, never the empty text, as `serde_json::to_string` writes it, that is read back.
pub record IsLawful {A : Type 0} (serde : Serde A) : Type 0 where
  pub plain : (a : A) (s : Str) → serde.to_string a ≡ ok s → IsPlain s
  pub some_text : (a : A) (s : Str) → serde.to_string a ≡ ok s → is_empty s ≡ false
  pub back : (a : A) (s : Str) → serde.to_string a ≡ ok s → serde.from_str s ≡ ok a

trim_line-plain : (s : Str) → IsPlain s → trim_line s ≡ s
unfolding trim_line contains_char
trim_line-plain [] h = refl
trim_line-plain (c ∷ []) h = ground (arith, h.0, h.1)
trim_line-plain (c ∷ d ∷ s) h =
    let later = trim_line-plain (d ∷ s) (ground (arith, h.0), ground (arith, h.1)) in
    rw (later, trim_line) refl

trim_line-append : (s : Str) → trim_line (s ++ 10 ∷ []) ≡ trim_line s
unfolding trim_line
trim_line-append [] = refl
trim_line-append (c ∷ s) = rw (trim_line-append s, trim_line) refl

module _ {A : Type 0} (serde : Serde A) (lawful : IsLawful serde) where
  decode_plain :
      (a : A) (s : Str) → serde.to_string a ≡ ok s → decode_line serde (s ++ 10 ∷ []) ≡ ok a
  unfolding decode_line
  decode_plain a s e =
      let p = lawful.plain a s e in
      rw (trim_line-append s, trim_line-plain s p, lawful.some_text a s e, p.0, lawful.back a s e)
        refl

  -- A line is decoded to what it encodes; there is no line only where `serde_json` fails.
  abbrev pub Sent : A → Outcome LineError Str → Type 0
  Sent a (ok line) =
      (decode_line serde line ≡ ok a)
      × (s : Str) × (line ≡ s ++ 10 ∷ [])
      × (contains_char s 10 ≡ false)
  Sent a (err e) = (m : Str) × (serde.to_string a ≡ err m)

  finish_line-Sent :
      (a : A) (o : Outcome Str Str) → serde.to_string a ≡ o → Sent a (finish_line serde o)
  finish_line-Sent a (ok s) e = (decode_plain a s e, s, refl, (lawful.plain a s e).0)
  finish_line-Sent a (err m) e = (m, e)

  -- With a `serde_json` that writes no line breaks and no empty text, and reads back what it
  -- writes, every message is encoded as one line that is decoded to the same message, or
  -- `serde_json` refuses to write it.
  pub encode_line-Sent : (a : A) → Sent a (encode_line serde a)
  unfolding encode_line
  encode_line-Sent a = finish_line-Sent a (serde.to_string a) refl
