-- ===== src/Queries/Status/Hashes.antt =====
-- The listing of the hashes, its pages and its total.
use py_aleph.Prelude.{
  ℕ, zero, suc, ◌*◌, ◌-◌, ◌≤◌, ◌<◌, ◌≡◌, refl, ◌∙◌, sym, ap, Bool, List, [], ◌++◌, arith, any, keep,
  length,
}
use py_aleph.Node.{StatusRow}
use py_aleph.Queries.{sort_by, paginate}
use py_aleph.Queries.Sort.{IsSorted, sort_by-IsSorted, length-sort_by, any-sort_by}
use py_aleph.Queries.Pages.{pages, pages_all}
use py_aleph.Queries.Lists.{earlier-IsWeakOrder}
use py_aleph.Queries.Status.{
  HashQuery, hash_matches, hash_before, make_matching_hashes_query, get_matching_hashes,
  count_matching_hashes,
}

-- The first pages of the listing of the hashes, one after another.
pub hash_pages : ℕ → HashQuery → List (ℕ × StatusRow) → List (ℕ × StatusRow)
hash_pages zero q rows = []
hash_pages (suc n) q rows =
    hash_pages n q rows ++ get_matching_hashes (record q { page = suc n }) rows

hash_pages-pages :
    (n : ℕ) (q : HashQuery) (rows : List (ℕ × StatusRow))
    → hash_pages n q rows
      ≡ pages n q.pagination (sort_by (hash_before q) (keep (hash_matches q) rows))
unfolding hash_pages pages get_matching_hashes make_matching_hashes_query hash_matches
hash_pages-pages zero q rows = refl
hash_pages-pages (suc n) q rows = rw (hash_pages-pages n q rows) refl

-- The total of the hashes is that of the rows that match, on whatever page it is asked for; as many
-- pages as the total needs give, one after another, all these rows in the order of their time.
pub count_matching_hashes-pages :
    (n : ℕ) (q : HashQuery) (rows : List (ℕ × StatusRow))
    → 0 < q.pagination
    → count_matching_hashes q rows ≤ n * q.pagination
    → (count_matching_hashes q rows ≡ length (keep (hash_matches q) rows))
      × (count_matching_hashes q rows ≡ length (hash_pages n q rows))
      × IsSorted (hash_before q) (hash_pages n q rows)
      × ((p : ℕ × StatusRow → Bool)
          → any p (hash_pages n q rows) ≡ any p (keep (hash_matches q) rows))
unfolding count_matching_hashes make_matching_hashes_query hash_matches paginate
count_matching_hashes-pages n q rows some_ fits =
    let found = sort_by (hash_before q) (keep (hash_matches q) rows) in
    let start : (q.page - 1) * 0 ≡ 0 = omega arith in
    let count : count_matching_hashes q rows ≡ length found = rw start refl in
    let all_ : hash_pages n q rows ≡ found =
      hash_pages-pages n q rows ∙ pages_all n q.pagination found some_ (rw count at fits) in
    (
      count ∙ length-sort_by (hash_before q) (keep (hash_matches q) rows),
      count ∙ ap length (sym all_),
      rw all_ (
          sort_by-IsSorted (hash_before q)
            (earlier-IsWeakOrder q.sort_order (λ r. r.1.reception_time))
            (keep (hash_matches q) rows)),
      λ p. ap (any p) all_ ∙ any-sort_by (hash_before q) p (keep (hash_matches q) rows),
    )
