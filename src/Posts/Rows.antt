-- ===== src/Posts/Rows.antt =====
-- The rows of the posts: what their keys say of the queries.
use mathlib.Core.Path.{}
use py_aleph.Prelude.{
  ℕ, ◌≤◌, ◌≡◌, ◌≢◌, refl, ap, ◌∙◌, true, false, ◌&&◌, Option, none, some, List, [], ◌∷◌, arith,
  ◌==◌, max, any, first, All, equals, Bool-cases, Option-cases, inl, inr,
}
use py_aleph.Prelude.Keys.{some_inj}
use py_aleph.Posts.{Post, has_hash, amends_post, has_key, has_keys, latest_time}

abbrev pub hash_of : Post → ℕ
hash_of p = p.item_hash

-- A row that no key names is amended by none.
pub not_amended :
    (h : ℕ) (posts ps : List Post)
    → any (has_hash h) posts ≡ false
    → has_keys posts ps ≡ true
    → All (λ p. amends_post h p ≡ false) ps
not_amended h posts [] n k = tt
not_amended h posts (p ∷ ps) n k =
    (equals_other p.amends (ground (arith, k)), not_amended h posts ps n (ground (arith, k)))
  where
    equals_other : (o : Option ℕ) → has_key posts o ≡ true → equals o h ≡ false
    equals_other none t = refl
    equals_other (some g) t = elim (Bool-cases (g == h)) [
      | inr other ↦ other
      | inl same ↦
          (let eq : g ≡ h = ground (arith, same) in
            let found : any (has_hash h) posts ≡ true = rw eq at t in absurd (cc (found, n)))
    ]

module _ (h : ℕ) where
  -- The latest time of the amends of a post is that of none later, and of one of them.
  pub latest_time-none :
      (ps : List Post) → latest_time h ps ≡ none → All (λ p. amends_post h p ≡ false) ps
  latest_time-none [] e = tt
  latest_time-none (p ∷ ps) e = elim (Bool-cases (amends_post h p)) [
    | inl y ↦ absurd (cc (rw y at e))
    | inr n ↦ (n, latest_time-none ps (rw n at e))
  ]

  -- An amend of the post that is not later than a time.
  abbrev pub AtMost : ℕ → Post → Type 0
  AtMost time p = amends_post h p ≡ true → p.creation_datetime ≤ time

  pub AtMost-le : (a b : ℕ) (ps : List Post) → a ≤ b → All (AtMost a) ps → All (AtMost b) ps
  AtMost-le a b [] le m = tt
  AtMost-le a b (p ∷ ps) le m = ((λ y. omega (arith, le, m.0 y)), AtMost-le a b ps le m.1)

  pub AtMost-others :
      (time : ℕ) (ps : List Post) → All (λ p. amends_post h p ≡ false) ps → All (AtMost time) ps
  AtMost-others time [] a = tt
  AtMost-others time (p ∷ ps) a = ((λ y. absurd (cc (y, a.0))), AtMost-others time ps a.1)

  pub latest_time_max :
      (ps : List Post) (time : ℕ) → latest_time h ps ≡ some time → All (AtMost time) ps
  latest_time_max [] time e = absurd (cc)
  latest_time_max (p ∷ ps) time e = elim (Bool-cases (amends_post h p)) [
    | inr n ↦ ((λ y. absurd (cc (y, n))), latest_time_max ps time (rw n at e))
    | inl y ↦ elim (Option-cases (latest_time h ps)) [
      | inl empty ↦
          (let eq : some p.creation_datetime ≡ some time = rw (y, empty) at e in
            ((λ _. omega (arith, some_inj eq)), AtMost-others time ps (latest_time-none ps empty)))
      | inr (m, found) ↦
          (let eq : some (max p.creation_datetime m) ≡ some time = rw (y, found) at e in
            let is_max = some_inj eq in
            (
              (λ _. omega (arith, is_max)),
              AtMost-le m time ps (omega (arith, is_max)) (latest_time_max ps m found),
            ))
    ]
  ]

  pub latest_time_found :
      (ps : List Post) (time : ℕ)
      → latest_time h ps ≡ some time
      → (a : Post) × (first (λ p. amends_post h p && p.creation_datetime == time) ps ≡ some a)
        × (amends_post h a ≡ true)
        × (a.creation_datetime ≡ time)
  latest_time_found [] time e = absurd (cc)
  latest_time_found (p ∷ ps) time e = elim (Bool-cases (amends_post h p)) [
    | inr n ↦ (let (a, f, am, at_) = latest_time_found ps time (rw n at e) in (a, rw n f, am, at_))
    | inl y ↦ elim (Bool-cases (p.creation_datetime == time)) [
      | inl same ↦ (p, rw (y, same) refl, y, ground (arith, same))
      | inr other ↦ elim (Option-cases (latest_time h ps)) [
        | inl empty ↦
            (let eq : some p.creation_datetime ≡ some time = rw (y, empty) at e in
              absurd (ground (arith, some_inj eq, other)))
        | inr (m, found) ↦
            (let eq : some (max p.creation_datetime m) ≡ some time = rw (y, found) at e in
              let differ : p.creation_datetime ≢ time = λ d. ground (arith, d, other) in
              let is_m : m ≡ time = omega (arith, some_inj eq, differ) in
              let (a, f, am, at_) = latest_time_found ps time (found ∙ ap some is_m) in
              (a, rw (y, other) f, am, at_))
      ]
    ]
  ]
