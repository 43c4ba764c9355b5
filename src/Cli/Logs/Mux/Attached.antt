-- ===== src/Cli/Logs/Mux/Attached.antt =====
-- What a `refresh` of crates/cli/src/logs.rs attaches.
use neals.Prelude.{
  subst, ℕ, ◌≤◌, true, false, Option, List, [], ◌∷◌, ◌++◌, ◌≡◌, refl, sym, ap, ◌∙◌, arith, inl, inr,
}
use neals.Prelude.Bools.{take_both, Bool-cases, is_some}
use neals.Prelude.Lists.{All, length, any, any-append}
use neals.Prelude.Outcome.{OnOk, then-OnOk, Outcome, ok, err, ◌>>=◌}
use neals.Prelude.Text.{str_eq, Str, codes, str_eq_refl}
use neals.Prelude.Utf8.{utf8}
use neals.Cli.Logs.Follower.{Disk, LogFollower}
use neals.Cli.Logs.Names.{process_log_names}
use neals.Cli.Logs.Mux.{
  ProcessLogMux, same_key, tagged, open_stream, add_stream, attach, widened, refresh_names, refresh,
}

-- No key is in the list twice.
abbrev pub AreDistinct : List (Str × Str) → Type 0
AreDistinct [] = Unit
AreDistinct (k ∷ ks) = (any (same_key k) ks ≡ false) × AreDistinct ks

abbrev pub names_of {ℓ} : {A : Type ℓ} → List (Str × A) → List Str
names_of [] = []
names_of (k ∷ ks) = k.0 ∷ names_of ks

-- Every stream is attached once.
pub record IsMux (m : ProcessLogMux) : Type 0 where
  pub distinct : AreDistinct m.known
  pub followed : names_of m.known ≡ names_of m.streams

str_eq_sym : (s t : Str) → str_eq s t ≡ str_eq t s
unfolding str_eq
str_eq_sym [] [] = refl
str_eq_sym [] (b ∷ t) = refl
str_eq_sym (a ∷ s) [] = refl
str_eq_sym (a ∷ s) (b ∷ t) = ground (arith, str_eq_sym s t)

same_key_sym : (a b : Str × Str) → same_key a b ≡ same_key b a
unfolding same_key
same_key_sym a b = rw (str_eq_sym a.0 b.0, str_eq_sym a.1 b.1) refl

snoc-AreDistinct :
    (ks : List (Str × Str)) (k : Str × Str)
    → AreDistinct ks
    → any (same_key k) ks ≡ false
    → AreDistinct (ks ++ k ∷ [])
unfolding any
snoc-AreDistinct [] k h e = (refl, tt)
snoc-AreDistinct (j ∷ ks) k h e = (
  ground (arith, any-append (same_key j) ks (k ∷ []), same_key_sym j k, h.0),
  snoc-AreDistinct ks k h.1 (ground arith),
)

names_of-append {ℓ} :
    {A : Type ℓ} (xs ys : List (Str × A)) → names_of (xs ++ ys) ≡ names_of xs ++ names_of ys
names_of-append [] ys = refl
names_of-append (x ∷ xs) ys = ap (λ t. x.0 ∷ t) (names_of-append xs ys)

-- What is known stays known.
pub record Grows (m n : ProcessLogMux) : Type 0 where
  pub kept : (k : Str × Str) → any (same_key k) m.known ≡ true → any (same_key k) n.known ≡ true
  pub wider : m.width ≤ n.width

Grows-refl : (m : ProcessLogMux) → Grows m m
Grows-refl m = record { kept = λ k h. h; wider = omega arith }

Grows-trans : (l m n : ProcessLogMux) → Grows l m → Grows m n → Grows l n
Grows-trans l m n g h = record {
  kept = λ k e. h.kept k (g.kept k e);
  wider = omega (arith, g.wider, h.wider);
}

added : ProcessLogMux → Str → Str → LogFollower → ProcessLogMux
added m name stream s = record m {
  known = m.known ++ (name, stream) ∷ [];
  streams = m.streams ++ (name, s) ∷ [];
}

widened_same : (m : ProcessLogMux) (name : Str) → length (utf8 name) ≤ m.width → widened m name ≡ m
unfolding widened
widened_same m name h = ap (λ w. record m { width = w }) (omega arith)

module _ (disk_of : Str → Str → Disk) where
  -- A stream that has a log is known.
  abbrev pub Held : ProcessLogMux → Str → Str → Type 0
  Held m name stream =
      is_some (disk_of name stream).at_path ≡ true → any (same_key (name, stream)) m.known ≡ true

  abbrev pub Settled : ProcessLogMux → Str → Type 0
  Settled m name =
      (length (utf8 name) ≤ m.width) × Held m name (codes "stdout") × Held m name (codes "stderr")

  abbrev Attached : ProcessLogMux → Str → Str → ProcessLogMux × List (Str × Str) → Type 0
  Attached m name stream r = Grows m r.0 × Held r.0 name stream × (IsMux m → IsMux r.0)

  added-Post :
      (m : ProcessLogMux) (name stream : Str) (r : Outcome Str (LogFollower × List Str))
      → any (same_key (name, stream)) m.known ≡ false
      → OnOk (Attached m name stream) (r >>= λ q. ok (added m name stream q.0, tagged name q.1))
  unfolding added any same_key
  added-Post m name stream (err e) new = tt
  added-Post m name stream (ok q) new = (
    record {
      kept = λ k h. ground (arith, any-append (same_key k) m.known ((name, stream) ∷ []), h);
      wider = omega arith;
    },
    (λ _.
        rw
          (
            any-append (same_key (name, stream)) m.known ((name, stream) ∷ []),
            new,
            str_eq_refl name,
            str_eq_refl stream,
          )
          refl),
    λ i. record {
      distinct = snoc-AreDistinct m.known (name, stream) i.distinct new;
      followed =
          names_of-append m.known ((name, stream) ∷ [])
          ∙ ap (λ t. t ++ name ∷ []) i.followed
          ∙ sym (names_of-append m.streams ((name, q.0) ∷ []));
    },
  )

  attach-Post :
      (tail : Option ℕ) (m : ProcessLogMux) (name stream : Str)
      → OnOk (Attached m name stream) (attach disk_of tail m name stream)
  unfolding attach add_stream added
  attach-Post tail m name stream =
      take_both (OnOk (Attached m name stream)) (is_some (disk_of name stream).at_path) _
        (ok (m, []))
        (λ file.
          take_both (OnOk (Attached m name stream)) (any (same_key (name, stream)) m.known)
            (ok (m, [])) (add_stream disk_of tail m name stream)
            (λ old. (Grows-refl m, (λ _. old), λ i. i))
            (λ new. added-Post m name stream (open_stream tail (disk_of name stream)) new))
        (λ none_there. (Grows-refl m, (λ e. absurd (ground (arith, e, none_there))), λ i. i))

  attach_settled :
      (tail : Option ℕ) (m : ProcessLogMux) (name stream : Str)
      → Held m name stream
      → attach disk_of tail m name stream ≡ ok (m, [])
  unfolding attach
  attach_settled tail m name stream h = elim (Bool-cases (is_some (disk_of name stream).at_path)) [
    | inl e ↦ rw (e, h e) refl
    | inr e ↦ rw e refl
  ]

  -- Where all is attached, nothing is.
  Settled-refresh_names :
      (tail : Option ℕ) (m : ProcessLogMux) (names : List Str)
      → All (Settled m) names
      → refresh_names disk_of tail m names ≡ ok (m, [])
  unfolding refresh_names
  Settled-refresh_names tail m [] h = refl
  Settled-refresh_names tail m (name ∷ names) h =
      ap (λ w. attach disk_of tail w name (codes "stdout") >>= after_out)
        (widened_same m name h.0.0)
      ∙ ap (λ o. o >>= after_out) (attach_settled tail m name (codes "stdout") h.0.1)
      ∙ ap (λ o. o >>= after_both []) (attach_settled tail m name (codes "stderr") h.0.2)
      ∙ ap (λ o. o >>= λ rest. ok (rest.0, rest.1)) (Settled-refresh_names tail m names h.1)
    where
      after_both :
          List (Str × Str)
          → ProcessLogMux × List (Str × Str)
          → Outcome Str (ProcessLogMux × List (Str × Str))
      after_both shown both =
          refresh_names disk_of tail both.0 names >>= λ rest. ok (rest.0, shown ++ both.1 ++ rest.1)

      after_out : ProcessLogMux × List (Str × Str) → Outcome Str (ProcessLogMux × List (Str × Str))
      after_out out = attach disk_of tail out.0 name (codes "stderr") >>= after_both out.1

  abbrev pub Refreshed : ProcessLogMux → List Str → ProcessLogMux × List (Str × Str) → Type 0
  Refreshed m names r = Grows m r.0 × All (Settled r.0) names × (IsMux m → IsMux r.0)

  Settled-Grows : (m n : ProcessLogMux) (name : Str) → Grows m n → Settled m name → Settled n name
  Settled-Grows m n name g h =
      (omega (arith, g.wider, h.0), (λ e. g.kept _ (h.1 e)), λ e. g.kept _ (h.2 e))

  widened-Grows : (m : ProcessLogMux) (name : Str) → Grows m (widened m name)
  unfolding widened
  widened-Grows m name = record { kept = λ k h. h; wider = omega arith }

  width_kept :
      (m : ProcessLogMux) (name : Str) (n : ProcessLogMux)
      → Grows (widened m name) n
      → length (utf8 name) ≤ n.width
  unfolding widened
  width_kept m name n g = omega (arith, g.wider)

  widened-IsMux : (m : ProcessLogMux) (name : Str) → IsMux m → IsMux (widened m name)
  unfolding widened
  widened-IsMux m name i = record { distinct = i.distinct; followed = i.followed }

  refresh_names-Post :
      (tail : Option ℕ) (m : ProcessLogMux) (names : List Str)
      → OnOk (Refreshed m names) (refresh_names disk_of tail m names)
  unfolding refresh_names
  refresh_names-Post tail m [] = (Grows-refl m, tt, λ i. i)
  refresh_names-Post tail m (name ∷ names) =
      then-OnOk (Attached (widened m name) name (codes "stdout")) (Refreshed m (name ∷ names)) _ _
        (attach-Post tail (widened m name) name (codes "stdout"))
        λ out o.
          then-OnOk (Attached out.0 name (codes "stderr")) (Refreshed m (name ∷ names)) _ _
            (attach-Post tail out.0 name (codes "stderr"))
            λ both e.
              then-OnOk (Refreshed both.0 names) (Refreshed m (name ∷ names)) _ _
                (refresh_names-Post tail both.0 names)
                λ rest r.
                  let first = Grows-trans m (widened m name) out.0 (widened-Grows m name) o.0 in
                  let second = Grows-trans m out.0 both.0 first e.0 in
                  (
                    Grows-trans m both.0 rest.0 second r.0,
                    (
                      Settled-Grows both.0 rest.0 name r.0 (
                        omega (arith, width_kept m name out.0 o.0, e.0.wider),
                        (λ x. e.0.kept _ (o.1 x)),
                        e.1,
                      ),
                      r.1,
                    ),
                    λ i. r.2 (e.2 (o.2 (widened-IsMux m name i))),
                  )

  -- A refresh keeps the multiplexer sound, and attaches every stream that has a log; the next one,
  -- of the same directory, finds nothing to attach and shows nothing.
  pub refresh_lem :
      (tail next : Option ℕ) (m : ProcessLogMux) (files : List Str) (n : ProcessLogMux)
      (shown : List (Str × Str))
      → IsMux m
      → refresh disk_of tail m files ≡ ok (n, shown)
      → IsMux n
        × All (Settled n) (process_log_names files)
        × (refresh disk_of next n files ≡ ok (n, []))
  unfolding refresh
  refresh_lem tail next m files n shown i e =
      let r : Refreshed m (process_log_names files) (n, shown) =
        subst (OnOk (Refreshed m (process_log_names files))) e
          (refresh_names-Post tail m (process_log_names files)) in
      (r.2 i, r.1, Settled-refresh_names next n (process_log_names files) r.1)
