-- ===== src/Common/Devenv/Services/Sorted.antt =====
-- The sorting at the end of `parse_neals_services` of crates/common/src/devenv.rs.
use neals.Prelude.{◌≡◌, refl, true, List, [], ◌∷◌, arith}
use neals.Prelude.Bools.{take_both}
use neals.Prelude.Lists.{All}
use neals.Prelude.Outcome.{Outcome, ok, err, ◌>>=◌}
use neals.Prelude.Text.{Str, str_leb}
use neals.Prelude.Text.Order.{str_leb_total}
use neals.Common.Devenv.{ServiceDecl}
use neals.Common.Devenv.Nix.{Expr, Literals, NixError, collect_neals_literals}
use neals.Common.Devenv.Services.{
  DeclError, Drafts, draft_all, decl_all, route_all, insert_sorted, sort_decls, services_of,
  parse_neals_services, lift_nix,
}
use neals.Common.Devenv.Services.Drafted.{Mapped, draft_all-Mapped}
use neals.Common.Devenv.Services.Declared.{
  AreDeclared, IsDeclared, Declared, named, route_all-Declared, decl_all-Declared,
}

-- A name is at most the first of the names that follow.
abbrev Heads : Str → List ServiceDecl → Type 0
Heads name [] = Unit
Heads name (d ∷ ds) = str_leb name d.service ≡ true

abbrev pub IsSorted : List ServiceDecl → Type 0
IsSorted [] = Unit
IsSorted (d ∷ ds) = Heads d.service ds × IsSorted ds

Heads-insert :
    (name : Str) (d : ServiceDecl) (ds : List ServiceDecl)
    → str_leb name d.service ≡ true
    → Heads name ds
    → Heads name (insert_sorted d ds)
unfolding insert_sorted
Heads-insert name d [] h k = h
Heads-insert name d (e ∷ es) h k =
    take_both (Heads name) (str_leb d.service e.service) (d ∷ e ∷ es) (e ∷ insert_sorted d es)
      (λ le. h) (λ gt. k)

insert-IsSorted :
    (d : ServiceDecl) (ds : List ServiceDecl) → IsSorted ds → IsSorted (insert_sorted d ds)
unfolding insert_sorted
insert-IsSorted d [] h = (tt, tt)
insert-IsSorted d (e ∷ es) h =
    take_both IsSorted (str_leb d.service e.service) (d ∷ e ∷ es) (e ∷ insert_sorted d es)
      (λ le. (le, h))
      (λ gt. (
        Heads-insert e.service d es (str_leb_total d.service e.service gt) h.0,
        insert-IsSorted d es h.1,
      ))

sort-IsSorted : (ds : List ServiceDecl) → IsSorted (sort_decls ds)
unfolding sort_decls
sort-IsSorted [] = tt
sort-IsSorted (d ∷ ds) = insert-IsSorted d (sort_decls ds) (sort-IsSorted ds)

insert-IsDeclared :
    (d : ServiceDecl) (ds : List ServiceDecl)
    → IsDeclared d
    → All IsDeclared ds
    → All IsDeclared (insert_sorted d ds)
unfolding insert_sorted
insert-IsDeclared d [] h hs = (h, tt)
insert-IsDeclared d (e ∷ es) h hs =
    take_both (All IsDeclared) (str_leb d.service e.service) (d ∷ e ∷ es) (e ∷ insert_sorted d es)
      (λ le. (h, hs)) (λ gt. (hs.0, insert-IsDeclared d es h hs.1))

sort-IsDeclared : (ds : List ServiceDecl) → All IsDeclared ds → All IsDeclared (sort_decls ds)
unfolding sort_decls
sort-IsDeclared [] h = tt
sort-IsDeclared (d ∷ ds) h = insert-IsDeclared d (sort_decls ds) h.0 (sort-IsDeclared ds h.1)

named-insert :
    (name : Str) (d : ServiceDecl) (ds : List ServiceDecl)
    → named name (insert_sorted d ds) ≡ named name (d ∷ ds)
unfolding insert_sorted
named-insert name d [] = refl
named-insert name d (e ∷ es) = ground (arith, named-insert name d es)

named-sort : (name : Str) (ds : List ServiceDecl) → named name (sort_decls ds) ≡ named name ds
unfolding sort_decls
named-sort name [] = refl
named-sort name (d ∷ ds) = omega (arith, named-insert name d (sort_decls ds), named-sort name ds)

-- The services, where there is no error: valid, sorted by name, no two of one name.
abbrev pub Services : Outcome DeclError (List ServiceDecl) → Type 0
Services (ok ds) = AreDeclared ds × IsSorted ds
Services (err e) = Unit

sorted-Services :
    (o : Outcome DeclError (List ServiceDecl))
    → Declared o
    → Services (o >>= λ ds. ok (sort_decls ds))
sorted-Services (ok ds) h = (
  record {
    each = sort-IsDeclared ds h.each;
    once = λ name. omega (arith, named-sort name ds, h.once name);
  },
  sort-IsSorted ds,
)
sorted-Services (err e) h = tt

routed-Services :
    (bs : Literals) (o : Outcome DeclError (List ServiceDecl))
    → Declared o
    → Services (o >>= λ ds. route_all ds bs >>= λ all. ok (sort_decls all))
routed-Services bs (ok ds) h = sorted-Services (route_all ds bs) (route_all-Declared ds bs h)
routed-Services bs (err e) h = tt

drafted-Services :
    (bs : Literals) (o : Outcome DeclError Drafts)
    → Mapped o
    → Services
        (o >>= λ drafts. decl_all drafts >>= λ ds. route_all ds bs >>= λ all. ok (sort_decls all))
drafted-Services bs (ok drafts) h =
    routed-Services bs (decl_all drafts) (decl_all-Declared drafts h)
drafted-Services bs (err e) h = tt

-- Whatever the literals are, and in whatever order the map yields them, the services that they
-- declare have valid names, ports from 1 to 65535 and bare file names as sockets, and stand in the
-- order of their names, each of which occurs once.
pub services_of-Services : (bs : Literals) → Services (services_of bs)
unfolding services_of
services_of-Services bs =
    drafted-Services bs (draft_all [] bs)
      (draft_all-Mapped [] bs (record { entries = tt; once = λ name. omega arith }))

collected-Services : (o : Outcome NixError Literals) → Services (lift_nix o >>= services_of)
collected-Services (ok bs) = services_of-Services bs
collected-Services (err e) = tt

pub parse-Services : (expr : Expr) → Services (parse_neals_services expr)
unfolding parse_neals_services
parse-Services expr = collected-Services (collect_neals_literals expr)
