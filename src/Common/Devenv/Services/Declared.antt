-- ===== src/Common/Devenv/Services/Declared.antt =====
-- The declarations and routes of `parse_neals_services` of crates/common/src/devenv.rs.
use neals.Prelude.{
  ℕ, ◌+◌, ◌≤◌, ◌≡◌, refl, ap, Bool, true, false, Option, none, some, List, [], ◌∷◌, ◌++◌, arith,
}
use neals.Prelude.Bools.{if◌then◌else◌, take_both}
use neals.Prelude.Lists.{All, All-append, any}
use neals.Prelude.Outcome.{Outcome, ok, err, ◌>>=◌}
use neals.Prelude.Text.{str_eq_sound, Str, codes, str_eq}
use neals.Common.Devenv.{ServiceDecl, ServiceKind, is_valid_service_name, is_valid_socket_file}
use neals.Common.Devenv.Nix.{NixLit, AttrPath, Literals}
use neals.Common.Devenv.Services.{
  is_false, DeclError, ServiceDraft, Drafts, into_decl, decl_of, decl_all, is_seen, route_decl,
  add_route, route_binding, route_all, invalid_route, conflicting_route, socket_not_proxied,
  invalid_route_value,
}
use neals.Common.Devenv.Services.Drafted.{IsPort, IsSocket, IsEntry, IsMap, drafts_named}

-- A preferred port is a port, and a socket is a bare file name.
abbrev pub IsKind : ServiceKind → Type 0
IsKind (ServiceKind.tcp preferred proxy) = IsPort preferred
IsKind (ServiceKind.unix file) = is_valid_socket_file file ≡ true

pub record IsDeclared (d : ServiceDecl) : Type 0 where
  pub name : is_valid_service_name d.service ≡ true
  pub kind : IsKind d.kind

-- How many services have a name.
abbrev pub named : Str → List ServiceDecl → ℕ
named name [] = 0
named name (d ∷ ds) = (if str_eq d.service name then 1 else 0) + named name ds

-- Valid services, no two of one name.
pub record AreDeclared (ds : List ServiceDecl) : Type 0 where
  pub each : All IsDeclared ds
  pub once : (name : Str) → named name ds ≤ 1

-- The declaration of a draft, where there is one, is valid and has the draft's name.
abbrev Made : Str → Outcome DeclError ServiceDecl → Type 0
Made s (ok d) = IsDeclared d × (d.service ≡ s)
Made s (err e) = Unit

decl_of-Made :
    (s : Str) (proxy : Option Bool) (port : Option ℕ) (socket : Option Str)
    → is_valid_service_name s ≡ true
    → IsPort port
    → IsSocket socket
    → Made s (decl_of s proxy port socket)
decl_of-Made s proxy (some n) none v p k = (record { name = v; kind = p }, refl)
decl_of-Made s proxy none (some file) v p k =
    take_both (Made s) (is_false proxy) (err (socket_not_proxied s)) _ (λ e. tt)
      (λ e. (record { name = v; kind = k }, refl))
decl_of-Made s proxy (some n) (some file) v p k = tt
decl_of-Made s proxy none none v p k = tt

abbrev MadeAll : Drafts → Outcome DeclError (List ServiceDecl) → Type 0
MadeAll drafts (ok ds) =
    All IsDeclared ds × ((name : Str) → named name ds ≡ drafts_named name drafts)
MadeAll drafts (err e) = Unit

cons-MadeAll :
    (s : Str) (draft : ServiceDraft) (drafts : Drafts) (o : Outcome DeclError ServiceDecl)
    (os : Outcome DeclError (List ServiceDecl))
    → Made s o
    → MadeAll drafts os
    → MadeAll ((s, draft) ∷ drafts) (o >>= λ d. os >>= λ ds. ok (d ∷ ds))
cons-MadeAll s draft drafts (err e) os h hs = tt
cons-MadeAll s draft drafts (ok d) (err e) h hs = tt
cons-MadeAll s draft drafts (ok d) (ok ds) h hs = (
  (h.0, hs.0),
  λ name. omega (arith, hs.1 name, ap {B = ℕ} (λ t. if str_eq t name then 1 else 0) h.1),
)

decl_all-MadeAll : (drafts : Drafts) → All IsEntry drafts → MadeAll drafts (decl_all drafts)
unfolding decl_all into_decl
decl_all-MadeAll [] h = (tt, λ name. refl)
decl_all-MadeAll ((s, draft) ∷ drafts) h =
    cons-MadeAll s draft drafts (into_decl draft s) (decl_all drafts)
      (decl_of-Made s draft.proxy draft.port draft.socket h.0.0 h.0.1.port h.0.1.socket)
      (decl_all-MadeAll drafts h.1)

abbrev pub Declared : Outcome DeclError (List ServiceDecl) → Type 0
Declared (ok ds) = AreDeclared ds
Declared (err e) = Unit

unseen : (ds : List ServiceDecl) (s : Str) → is_seen ds s ≡ false → named s ds ≡ 0
unfolding any
unseen [] s h = refl
unseen (d ∷ ds) s h = ground (arith, unseen ds s)

named-append :
    (name : Str) (xs ys : List ServiceDecl) → named name (xs ++ ys) ≡ named name xs + named name ys
named-append name [] ys = omega arith
named-append name (d ∷ xs) ys = omega (arith, named-append name xs ys)

same_named : (ds : List ServiceDecl) (s t : Str) → str_eq s t ≡ true → named s ds ≡ named t ds
same_named ds s t h = ap (λ u. named u ds) (str_eq_sound s t h)

route_decl-Made : (s : Str) (v : NixLit) → is_valid_service_name s ≡ true → Made s (route_decl s v)
route_decl-Made s (NixLit.int n) h = tt
route_decl-Made s (NixLit.bool b) h = tt
route_decl-Made s (NixLit.str raw) h =
    take_both (Made s) (str_eq raw (codes "tcp")) _ _ (λ e. (record { name = h; kind = tt }, refl))
      (λ e.
        take_both (Made s) (is_valid_socket_file raw) _ (err (invalid_route_value s raw))
          (λ valid. (record { name = h; kind = valid }, refl)) (λ bad. tt))

snoc-AreDeclared :
    (ds : List ServiceDecl) (s : Str) (d : ServiceDecl)
    → AreDeclared ds
    → is_seen ds s ≡ false
    → IsDeclared d
    → d.service ≡ s
    → AreDeclared (ds ++ d ∷ [])
snoc-AreDeclared ds s d h new valid same = record {
  each = All-append IsDeclared ds (d ∷ []) h.each (valid, tt);
  once = λ name. ground (
    arith,
    named-append name ds (d ∷ []),
    h.once name,
    unseen ds s new,
    ap (λ t. str_eq t name) same,
    same_named ds s name,
  );
}

snoc-Declared :
    (ds : List ServiceDecl) (s : Str) (o : Outcome DeclError ServiceDecl)
    → AreDeclared ds
    → is_seen ds s ≡ false
    → Made s o
    → Declared (o >>= λ d. ok (ds ++ d ∷ []))
snoc-Declared ds s (err e) h new m = tt
snoc-Declared ds s (ok d) h new m = snoc-AreDeclared ds s d h new m.0 m.1

add_route-Declared :
    (ds : List ServiceDecl) (s : Str) (v : NixLit) → AreDeclared ds → Declared (add_route ds s v)
add_route-Declared ds s v h =
    take_both Declared (is_valid_service_name s) _ (err (invalid_route s))
      (λ valid.
        take_both Declared (is_seen ds s) (err (conflicting_route s)) _ (λ old. tt)
          (λ new. snoc-Declared ds s (route_decl s v) h new (route_decl-Made s v valid)))
      (λ bad. tt)

route_binding-Declared :
    (ds : List ServiceDecl) (b : AttrPath × NixLit) → AreDeclared ds → Declared (route_binding ds b)
unfolding route_binding
route_binding-Declared ds (head ∷ s ∷ [], v) h =
    take_both Declared (str_eq head (codes "route")) (add_route ds s v) (ok ds)
      (λ e. add_route-Declared ds s v h) (λ e. h)
route_binding-Declared ds (head ∷ s ∷ more ∷ path, v) h = h
route_binding-Declared ds (head ∷ [], v) h = h
route_binding-Declared ds ([], v) h = h

then-Declared :
    (o : Outcome DeclError (List ServiceDecl))
    (f : List ServiceDecl → Outcome DeclError (List ServiceDecl))
    → Declared o
    → ((ds : List ServiceDecl) → AreDeclared ds → Declared (f ds))
    → Declared (o >>= f)
then-Declared (ok ds) f m g = g ds m
then-Declared (err e) f m g = tt

pub route_all-Declared :
    (ds : List ServiceDecl) (bs : Literals) → AreDeclared ds → Declared (route_all ds bs)
unfolding route_all
route_all-Declared ds [] h = h
route_all-Declared ds (b ∷ bs) h =
    then-Declared (route_binding ds b) (λ ds'. route_all ds' bs) (route_binding-Declared ds b h)
      (λ ds' h'. route_all-Declared ds' bs h')

made-Declared :
    (drafts : Drafts) (o : Outcome DeclError (List ServiceDecl))
    → IsMap drafts
    → MadeAll drafts o
    → Declared o
made-Declared drafts (ok ds) h m = record {
  each = m.0;
  once = λ name. omega (arith, m.1 name, h.once name);
}
made-Declared drafts (err e) h m = tt

pub decl_all-Declared : (drafts : Drafts) → IsMap drafts → Declared (decl_all drafts)
decl_all-Declared drafts h =
    made-Declared drafts (decl_all drafts) h (decl_all-MadeAll drafts h.entries)
