-- ===== src/Common/Devenv/Services/Drafted.antt =====
-- The drafts that `parse_neals_services` of crates/common/src/devenv.rs collects.
use neals.Prelude.{
  inl, inr, ℕ, ◌+◌, ◌≤◌, ◌≡◌, Bool, true, false, ◌||◌, Option, none, some, [], ◌∷◌, arith,
}
use neals.Prelude.Bools.{ltb, if◌then◌else◌, Bool-cases, take_both}
use neals.Prelude.Lists.{All}
use neals.Prelude.Outcome.{Outcome, ok, err, ◌>>=◌}
use neals.Prelude.Text.{Str, codes, str_eq, str_eq_iff}
use neals.Common.Devenv.{is_valid_service_name, is_valid_socket_file}
use neals.Common.Devenv.Nix.{pos, negsuc, NixLit, AttrPath, Literals}
use neals.Common.Devenv.Services.{
  lit_str, lit_bool, put_socket, put_proxy, put_port, DeclError, ServiceDraft, Drafts, lit_port,
  set_port, set_proxy, set_socket, set_field, draft_of, put_draft, draft_field, draft_binding,
  draft_all, unknown_field, invalid_service,
}

abbrev pub IsPort : Option ℕ → Type 0
IsPort none = Unit
IsPort (some n) = (1 ≤ n) × (n ≤ 65535)

abbrev pub IsSocket : Option Str → Type 0
IsSocket none = Unit
IsSocket (some file) = is_valid_socket_file file ≡ true

pub record IsDraft (d : ServiceDraft) : Type 0 where
  pub port : IsPort d.port
  pub socket : IsSocket d.socket

abbrev Drafted : Outcome DeclError ServiceDraft → Type 0
Drafted (ok d) = IsDraft d
Drafted (err e) = Unit

put_port-Drafted :
    (d : ServiceDraft) (service : Str) (n : ℕ) (old : Option ℕ)
    → IsDraft d
    → IsPort (some n)
    → Drafted (put_port d service n old)
put_port-Drafted d service n (some m) h p = tt
put_port-Drafted d service n none h p = record { port = p; socket = h.socket }

put_proxy-Drafted :
    (d : ServiceDraft) (service : Str) (b : Bool) (old : Option Bool)
    → IsDraft d
    → Drafted (put_proxy d service b old)
put_proxy-Drafted d service b (some c) h = tt
put_proxy-Drafted d service b none h = record { port = h.port; socket = h.socket }

put_socket-Drafted :
    (d : ServiceDraft) (service file : Str) (old : Option Str)
    → IsDraft d
    → IsSocket (some file)
    → Drafted (put_socket d service file old)
put_socket-Drafted d service file (some f) h s = tt
put_socket-Drafted d service file none h s = record { port = h.port; socket = s }

set_port-Drafted :
    (d : ServiceDraft) (service : Str) (v : NixLit) → IsDraft d → Drafted (set_port d service v)
unfolding lit_port
set_port-Drafted d service (NixLit.str s) h = tt
set_port-Drafted d service (NixLit.bool b) h = tt
set_port-Drafted d service (NixLit.int (negsuc n)) h = tt
set_port-Drafted d service (NixLit.int (pos n)) h = elim (Bool-cases (ltb n 1 || ltb 65535 n)) [
  | inl out ↦ rw out tt
  | inr fits ↦ rw fits (put_port-Drafted d service n d.port h (ground arith, ground arith))
]

set_proxy-Drafted :
    (d : ServiceDraft) (service : Str) (v : NixLit) → IsDraft d → Drafted (set_proxy d service v)
unfolding lit_bool
set_proxy-Drafted d service (NixLit.str s) h = tt
set_proxy-Drafted d service (NixLit.int n) h = tt
set_proxy-Drafted d service (NixLit.bool b) h = put_proxy-Drafted d service b d.proxy h

set_socket-Drafted :
    (d : ServiceDraft) (service : Str) (v : NixLit) → IsDraft d → Drafted (set_socket d service v)
unfolding lit_str
set_socket-Drafted d service (NixLit.bool b) h = tt
set_socket-Drafted d service (NixLit.int n) h = tt
set_socket-Drafted d service (NixLit.str file) h =
    take_both Drafted (is_valid_socket_file file) (put_socket d service file d.socket) _
      (λ valid. put_socket-Drafted d service file d.socket h valid) (λ bad. tt)

set_field-Drafted :
    (d : ServiceDraft) (service field : Str) (v : NixLit)
    → IsDraft d
    → Drafted (set_field d service field v)
unfolding set_field
set_field-Drafted d service field v h =
    take_both Drafted (str_eq field (codes "port")) (set_port d service v) _
      (λ e. set_port-Drafted d service v h)
      (λ e.
        take_both Drafted (str_eq field (codes "proxy")) (set_proxy d service v) _
          (λ e. set_proxy-Drafted d service v h)
          (λ e.
            take_both Drafted (str_eq field (codes "socket")) (set_socket d service v)
              (err (unknown_field service field)) (λ e. set_socket-Drafted d service v h)
              (λ e. tt)))

-- The entries of the map of drafts: valid names, once each.
abbrev pub drafts_named : Str → Drafts → ℕ
drafts_named name [] = 0
drafts_named name ((s, d) ∷ ds) = (if str_eq s name then 1 else 0) + drafts_named name ds

abbrev pub IsEntry : Str × ServiceDraft → Type 0
IsEntry (s, d) = (is_valid_service_name s ≡ true) × IsDraft d

pub record IsMap (ds : Drafts) : Type 0 where
  pub entries : All IsEntry ds
  pub once : (name : Str) → drafts_named name ds ≤ 1

draft_of-IsDraft : (ds : Drafts) (s : Str) → All IsEntry ds → IsDraft (draft_of ds s)
unfolding draft_of
draft_of-IsDraft [] s h = record { port = tt; socket = tt }
draft_of-IsDraft ((t, d) ∷ ds) s h =
    take_both IsDraft (str_eq t s) d (draft_of ds s) (λ e. h.0.1) (λ e. draft_of-IsDraft ds s h.1)

put_draft-entries :
    (ds : Drafts) (s : Str) (d : ServiceDraft)
    → All IsEntry ds
    → IsEntry (s, d)
    → All IsEntry (put_draft ds s d)
unfolding put_draft
put_draft-entries [] s d h e = (e, tt)
put_draft-entries ((t, old) ∷ ds) s d h e =
    take_both (All IsEntry) (str_eq t s) ((t, d) ∷ ds) ((t, old) ∷ put_draft ds s d)
      (λ same. ((h.0.0, e.1), h.1)) (λ other. (h.0, put_draft-entries ds s d h.1 e))

named-put_other :
    (ds : Drafts) (s : Str) (d : ServiceDraft) (name : Str)
    → str_eq s name ≡ false
    → drafts_named name (put_draft ds s d) ≡ drafts_named name ds
unfolding put_draft
named-put_other [] s d name h = ground arith
named-put_other ((t, old) ∷ ds) s d name h = ground (arith, named-put_other ds s d name h)

named-put_same :
    (ds : Drafts) (s : Str) (d : ServiceDraft) (name : Str)
    → str_eq s name ≡ true
    → drafts_named name ds ≤ 1
    → drafts_named name (put_draft ds s d) ≤ 1
unfolding put_draft
named-put_same [] s d name h b = ground arith
named-put_same ((t, old) ∷ ds) s d name h b =
    ground
      (arith, named-put_same ds s d name h, str_eq_iff s name, str_eq_iff t name, str_eq_iff t s)

put_draft-IsMap :
    (ds : Drafts) (s : Str) (d : ServiceDraft)
    → IsMap ds
    → IsEntry (s, d)
    → IsMap (put_draft ds s d)
put_draft-IsMap ds s d h e = record {
  entries = put_draft-entries ds s d h.entries e;
  once = λ name. elim (Bool-cases (str_eq s name)) [
    | inl same ↦ named-put_same ds s d name same (h.once name)
    | inr other ↦ omega (arith, named-put_other ds s d name other, h.once name)
  ];
}

abbrev pub Mapped : Outcome DeclError Drafts → Type 0
Mapped (ok ds) = IsMap ds
Mapped (err e) = Unit

put_draft-Mapped :
    (ds : Drafts) (s : Str) (o : Outcome DeclError ServiceDraft)
    → IsMap ds
    → is_valid_service_name s ≡ true
    → Drafted o
    → Mapped (o >>= λ d. ok (put_draft ds s d))
put_draft-Mapped ds s (ok d) h v e = put_draft-IsMap ds s d h (v, e)
put_draft-Mapped ds s (err m) h v e = tt

draft_field-Mapped :
    (ds : Drafts) (s : Str) (path : AttrPath) (v : NixLit)
    → IsMap ds
    → is_valid_service_name s ≡ true
    → Mapped (draft_field ds s path v)
draft_field-Mapped ds s [] v h valid = tt
draft_field-Mapped ds s (field ∷ []) v h valid =
    put_draft-Mapped ds s (set_field (draft_of ds s) s field v) h valid
      (set_field-Drafted (draft_of ds s) s field v (draft_of-IsDraft ds s h.entries))
draft_field-Mapped ds s (field ∷ more ∷ path) v h valid = tt

draft_binding-Mapped :
    (ds : Drafts) (b : AttrPath × NixLit) → IsMap ds → Mapped (draft_binding ds b)
unfolding draft_binding
draft_binding-Mapped ds ([], v) h = h
draft_binding-Mapped ds (head ∷ [], v) h = h
draft_binding-Mapped ds (head ∷ s ∷ path, v) h =
    take_both Mapped (str_eq head (codes "services")) _ (ok ds)
      (λ e.
        take_both Mapped (is_valid_service_name s) (draft_field ds s path v)
          (err (invalid_service s)) (λ valid. draft_field-Mapped ds s path v h valid) (λ bad. tt))
      (λ e. h)

then-Mapped :
    (o : Outcome DeclError Drafts) (f : Drafts → Outcome DeclError Drafts)
    → Mapped o
    → ((ds : Drafts) → IsMap ds → Mapped (f ds))
    → Mapped (o >>= f)
then-Mapped (ok ds) f m g = g ds m
then-Mapped (err e) f m g = tt

-- Whatever the literals, the drafts that are collected have valid names, one each, and valid fields.
pub draft_all-Mapped : (ds : Drafts) (bs : Literals) → IsMap ds → Mapped (draft_all ds bs)
unfolding draft_all
draft_all-Mapped ds [] h = h
draft_all-Mapped ds (b ∷ bs) h =
    then-Mapped (draft_binding ds b) (λ ds'. draft_all ds' bs) (draft_binding-Mapped ds b h)
      (λ ds' h'. draft_all-Mapped ds' bs h')
