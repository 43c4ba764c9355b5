-- ===== src/Tests/Messages.antt =====
-- Messages, quoted words and commands.
use neals.Prelude.{[], ◌∷◌, map, List, arith, subst, refl, ◌≡◌, false, some}
use neals.Prelude.Bools.{if◌then◌else◌}
use neals.Prelude.Outcome.{Outcome, ok, err}
use neals.Prelude.Text.{Str, codes, str_eq, contains_char, is_empty}
use neals.Prelude.Text.Lines.{IsPlain}
use neals.Common.Flags.{shell_quote}
use neals.Common.Flags.Quoting.{shell_words, spaced, shell_quote_lem}
use neals.Common.Ipc.{Request, ping, status, up, down, Serde, encode_line}
use neals.Common.Ipc.Laws.{IsLawful, Sent, encode_line-Sent}

abbrev writes : Request → Outcome Str Str
writes ping = ok (codes "ping")
writes status = ok (codes "status")
writes (up project) = err (codes "not written")
writes (down project) = err (codes "not written")

abbrev reads : Str → Outcome Str Request
reads s =
    if str_eq s (codes "ping")
    then ok ping
    else if str_eq s (codes "status")
    then ok status
    else err (codes "not read")

-- A serializer of two of the requests.
abbrev two_requests : Serde Request
two_requests = record { to_string = writes; from_str = reads }

abbrev text_of : Outcome Str Str → Str
text_of (ok s) = s
text_of (err e) = e

two_requests-IsPlain : (r : Request) → IsPlain (text_of (writes r))
unfolding contains_char
two_requests-IsPlain ping = (refl, refl)
two_requests-IsPlain status = (refl, refl)
two_requests-IsPlain (up project) = (refl, refl)
two_requests-IsPlain (down project) = (refl, refl)

two_requests_text : (r : Request) → is_empty (text_of (writes r)) ≡ false
two_requests_text ping = refl
two_requests_text status = refl
two_requests_text (up project) = refl
two_requests_text (down project) = refl

two_requests_back : (r : Request) (s : Str) → writes r ≡ ok s → reads s ≡ ok r
unfolding str_eq
two_requests_back ping s e = subst (λ o. reads (text_of o) ≡ ok ping) e refl
two_requests_back status s e = subst (λ o. reads (text_of o) ≡ ok status) e refl
two_requests_back (up project) s e = ground (arith, e)
two_requests_back (down project) s e = ground (arith, e)

two_requests-IsLawful : IsLawful two_requests
two_requests-IsLawful = record {
  plain = λ r s e. subst (λ o. IsPlain (text_of o)) e (two_requests-IsPlain r);
  some_text = λ r s e. subst (λ o. is_empty (text_of o) ≡ false) e (two_requests_text r);
  back = two_requests_back;
}

encode_line-Sent_example :
    Sent two_requests two_requests-IsLawful status (encode_line two_requests status)
encode_line-Sent_example = encode_line-Sent two_requests two_requests-IsLawful status

abbrev said : List Str
said = codes "it's on" ∷ [] ∷ codes "-v" ∷ []

shell_quote_lem_example : shell_words (spaced (map shell_quote said)) ≡ some said
shell_quote_lem_example = shell_quote_lem said
