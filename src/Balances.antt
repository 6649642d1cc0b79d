-- ===== src/Balances.antt =====
-- src/aleph/db/models/balances.py and src/aleph/db/accessors/balances.py: the balances that posts of
-- trusted addresses report. An amount is a `D`, which stands for Decimal. A dapp is NULL where a report
-- names none or an empty one.
pub mod Reports
use py_aleph.Prelude.{
  ℕ, Bool, true, false, ◌&&◌, ◌||◌, Option, none, some, List, [], ◌∷◌, ltb, ◌==◌, if◌then◌else◌,
  is_none, first, keep,
}

-- `AlephBalanceDb`.
pub record Balance (D : Type 0) : Type 0 where
  pub address : ℕ
  pub chain : ℕ
  pub dapp : Option ℕ
  pub eth_height : ℕ
  pub balance : D

-- Two NULLs are not distinct for the unique constraint.
abbrev pub same_dapp : Option ℕ → Option ℕ → Bool
same_dapp none none = true
same_dapp (some a) (some b) = a == b
same_dapp _ _ = false

module _ {D : Type 0} where
  -- The columns of `balances_address_chain_dapp_uindex`.
  abbrev pub is_balance_of : ℕ → ℕ → Option ℕ → Balance D → Bool
  is_balance_of address chain dapp b =
      b.address == address && (b.chain == chain && same_dapp b.dapp dapp)

  -- The insertion of one row of the temporary table, with `ON CONFLICT DO UPDATE`.
  unfoldable pub upsert_balance : Balance D → List (Balance D) → List (Balance D)
  upsert_balance new [] = new ∷ []
  upsert_balance new (b ∷ rows) =
      let rest = upsert_balance new rows in
      if is_balance_of new.address new.chain new.dapp b
      then (if ltb b.eth_height new.eth_height
          then record b { balance = new.balance; eth_height = new.eth_height } ∷ rows
          else b ∷ rows)
      else b ∷ rest

  -- A row of the temporary table.
  abbrev pub report : ℕ → Option ℕ → ℕ → ℕ → D → Balance D
  report chain dapp eth_height address balance = record {
    address = address;
    chain = chain;
    dapp = dapp;
    eth_height = eth_height;
    balance = balance;
  }

  -- `update_balances`.
  unfoldable pub update_balances :
      ℕ → Option ℕ → ℕ → List (ℕ × D) → List (Balance D) → List (Balance D)
  unfolding upsert_balance
  update_balances chain dapp eth_height [] rows = rows
  update_balances chain dapp eth_height ((address, balance) ∷ balances) rows =
      update_balances chain dapp eth_height balances
        (upsert_balance (report chain dapp eth_height address balance) rows)

  -- `get_balance_by_chain`.
  unfoldable pub get_balance_by_chain : ℕ → ℕ → Option ℕ → List (Balance D) → Option D
  get_balance_by_chain address chain dapp rows =
      elim (first (is_balance_of address chain dapp) rows) [ none ↦ none | some b ↦ some b.balance ]

  -- `func.sum`: NULL of no rows.
  abbrev sum_from : (D → D → D) → D → List (Balance D) → D
  sum_from plus d [] = d
  sum_from plus d (b ∷ rows) = sum_from plus (plus d b.balance) rows

  abbrev pub sum_of : (D → D → D) → List (Balance D) → Option D
  sum_of plus [] = none
  sum_of plus (b ∷ rows) = some (sum_from plus b.balance rows)

  -- `get_total_balance`.
  unfoldable pub get_total_balance : (D → D → D) → ℕ → Bool → List (Balance D) → Option D
  get_total_balance plus address include_dapps rows =
      sum_of plus (keep (λ b. b.address == address && (include_dapps || is_none b.dapp)) rows)
