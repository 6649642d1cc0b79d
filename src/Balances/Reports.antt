-- ===== src/Balances/Reports.antt =====
-- What a report of balances does to each balance.
use py_aleph.Prelude.{
  ℕ, ◌≡◌, refl, sym, ap, ◌∙◌, Bool, true, false, ◌&&◌, Option, none, some, List, [], ◌∷◌, arith,
  ltb, ◌==◌, if◌then◌else◌, first, Bool-cases, inl, inr,
}
use py_aleph.Balances.{Balance, same_dapp, is_balance_of, upsert_balance, report, update_balances}

same_dapp_refl : (d : Option ℕ) → same_dapp d d ≡ true
same_dapp_refl none = refl
same_dapp_refl (some a) = ground arith

same_dapp_eq : (d e : Option ℕ) → same_dapp d e ≡ true → d ≡ e
same_dapp_eq none none h = refl
same_dapp_eq none (some b) h = absurd (cc)
same_dapp_eq (some a) none h = absurd (cc)
same_dapp_eq (some a) (some b) h = ap some (ground (arith, h))

-- The balance that is reported for an address.
abbrev pub reported {ℓ} : {D : Type ℓ} → ℕ → List (ℕ × D) → Option D
reported address [] = none
reported address ((a, d) ∷ balances) = if a == address then some d else reported address balances

module _ {D : Type 0} where
  -- A balance after a report: the reported one, if there was none or an older one.
  abbrev pub with_report : Balance D → Option (Balance D) → Balance D
  with_report new none = new
  with_report new (some b) =
      if ltb b.eth_height new.eth_height
      then record b { balance = new.balance; eth_height = new.eth_height }
      else b

  abbrev same_balance : Balance D → Balance D → Bool
  same_balance new b = is_balance_of new.address new.chain new.dapp b

  -- A row of the key of another is found where the other is.
  same_key :
      (a c : ℕ) (d : Option ℕ) (new b : Balance D)
      → same_balance new b ≡ true
      → is_balance_of a c d b ≡ is_balance_of a c d new
  same_key a c d new b h =
      let e1 : b.address ≡ new.address = ground (arith, h) in
      let e2 : b.chain ≡ new.chain = ground (arith, h) in
      let e3 : b.dapp ≡ new.dapp = same_dapp_eq b.dapp new.dapp (ground (arith, h)) in
      rw (e1, e2, e3) refl

  other_key :
      (a c : ℕ) (d : Option ℕ) (new b : Balance D)
      → is_balance_of a c d b ≡ true
      → same_balance new b ≡ false
      → is_balance_of a c d new ≡ false
  other_key a c d new b h n = elim (Bool-cases (is_balance_of a c d new)) [
    | inr other ↦ other
    | inl same ↦
        (let e1 : a ≡ new.address = ground (arith, same) in
          let e2 : c ≡ new.chain = ground (arith, same) in
          let e3 : d ≡ new.dapp = sym (same_dapp_eq new.dapp d (ground (arith, same))) in
          let h' : same_balance new b ≡ true = rw (e1, e2, e3) at h in absurd (cc (h', n)))
  ]

  first-upsert_balance :
      (a c : ℕ) (d : Option ℕ) (new : Balance D) (rows : List (Balance D))
      → let old = first (is_balance_of a c d) rows in
        first (is_balance_of a c d) (upsert_balance new rows)
        ≡ (if is_balance_of a c d new then some (with_report new old) else old)
  unfolding upsert_balance
  first-upsert_balance a c d new [] = refl
  first-upsert_balance a c d new (b ∷ rows) = elim (Bool-cases (same_balance new b)) [
    | inl same ↦
        (let key = same_key a c d new b same in
          elim (Bool-cases (ltb b.eth_height new.eth_height)) [
            | inl newer ↦ elim (Bool-cases (is_balance_of a c d new)) [
              | inl y ↦ rw (same, newer, key ∙ y, y, newer) refl
              | inr n ↦ rw (same, newer, key ∙ n, n) refl
            ]
            | inr older ↦ elim (Bool-cases (is_balance_of a c d new)) [
              | inl y ↦ rw (same, older, key ∙ y, y, older) refl
              | inr n ↦ rw (same, older, key ∙ n, n) refl
            ]
          ])
    | inr other ↦ elim (Bool-cases (is_balance_of a c d b)) [
      | inl y ↦ rw (other, y, other_key a c d new b y other) refl
      | inr n ↦ rw (other, n) (first-upsert_balance a c d new rows)
    ]
  ]

  -- What a report of one chain and dapp makes of a balance that may be there.
  abbrev pub report_result :
      ℕ → ℕ → Option ℕ → ℕ → Option D → Option (Balance D) → Option (Balance D)
  report_result address chain dapp eth_height none old = old
  report_result address chain dapp eth_height (some d) old =
      some (with_report (report chain dapp eth_height address d) old)

  -- The rows of one report have one height, so the first of them for a key stays.
  report_twice :
      (address chain : ℕ) (dapp : Option ℕ) (eth_height : ℕ) (new : Balance D)
      (old : Option (Balance D)) (o : Option D)
      → new.eth_height ≡ eth_height
      → report_result address chain dapp eth_height o (some (with_report new old))
        ≡ some (with_report new old)
  report_twice address chain dapp eth_height new old none h = refl
  report_twice address chain dapp eth_height new none (some d) h = rw h (ground arith)
  report_twice address chain dapp eth_height new (some b) (some d) h =
      elim (Bool-cases (ltb b.eth_height new.eth_height)) [
        | inl newer ↦ rw newer (rw h (ground arith))
        | inr older ↦ rw older (rw (rw h at older) refl)
      ]

  -- After a report, the balance of an address for the chain and the dapp of the report is the reported
  -- one with the height of the report, if the address is reported and had no balance or one of a lower
  -- height; in any other case, and for any other chain or dapp, it is what it was.
  pub first-update_balances :
      (address c chain : ℕ) (d dapp : Option ℕ) (eth_height : ℕ) (balances : List (ℕ × D))
      (rows : List (Balance D))
      → first (is_balance_of address c d) (update_balances chain dapp eth_height balances rows) ≡ (
          if chain == c && same_dapp dapp d
          then report_result address chain dapp eth_height
              (reported address balances)
              (first (is_balance_of address c d) rows)
          else first (is_balance_of address c d) rows)
  unfolding update_balances
  first-update_balances address c chain d dapp eth_height [] rows =
      elim (Bool-cases (chain == c && same_dapp dapp d)) [ inl y ↦ rw y refl | inr n ↦ rw n refl ]
  first-update_balances address c chain d dapp eth_height ((x, v) ∷ balances) rows =
      let new = report chain dapp eth_height x v in
      let rest =
        first-update_balances address c chain d dapp eth_height balances
          (upsert_balance new rows) in
      let one = first-upsert_balance address c d new rows in
      elim (Bool-cases (chain == c && same_dapp dapp d)) [
        | inr no_match ↦ elim (Bool-cases (x == address)) [
          | inl y ↦ rw no_match (rw no_match at rest ∙ rw (y, no_match) at one)
          | inr n ↦ rw no_match (rw no_match at rest ∙ rw n at one)
        ]
        | inl matches ↦ elim (Bool-cases (x == address)) [
          | inr differ ↦
              rw (matches, differ)
                (rw matches at rest
                  ∙ ap (report_result address chain dapp eth_height (reported address balances))
                      (rw differ at one))
          | inl same ↦
              (let eq : x ≡ address = ground (arith, same) in
                let old = first (is_balance_of address c d) rows in
                let found : first (is_balance_of address c d) (upsert_balance new rows)
                    ≡ some (with_report new old) =
                  rw (same, matches) at one in
                rw (matches, same)
                  (rw matches at rest
                    ∙ (ap (report_result address chain dapp eth_height (reported address balances))
                          found
                        ∙ (report_twice address chain dapp eth_height new old
                              (reported address balances) refl
                            ∙ ap (λ a. some (with_report (report chain dapp eth_height a v) old))
                                eq))))
        ]
      ]
