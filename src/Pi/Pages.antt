-- ===== src/Pi/Pages.antt =====
-- The pages of packages/harness-pi-no-compaction/src/state.ts.
use managed_agents.Common.{
  true≢false, ℕ, suc, ◌+◌, ◌≤◌, ◌≡◌, refl, ap, true, false, ◌⊎◌, ◌||◌, ◌&&◌, List, [], ◌∷◌, ◌++◌,
  length, leb, ltb, arith,
}
use managed_agents.Common.{Bool-cases, inl, inr}
use managed_agents.Pi.Tables.{Page, page_from, page_rows, page_json_bytes}

module _ {A : Type 0} where
  -- the bytes of rows
  unfoldable pub bytes_of : (A → ℕ) → List A → ℕ
  bytes_of size [] = 0
  bytes_of size (row ∷ rows) = size row + bytes_of size rows

  -- the rows that a page leaves
  unfoldable pub Leaves : Page A → List A → List A → Type 0
  Leaves page rows rest =
      (page.rows ++ rest ≡ rows)
      × (page.has_more ≡ false → rest ≡ [])
      × (page.has_more ≡ true → (row : A) × (later : List A) × (rest ≡ row ∷ later))

  page_from-Leaves :
      (limit : ℕ) (size : A → ℕ) (taken bytes : ℕ) (rows : List A)
      → (rest : List A) × Leaves (page_from limit size taken bytes rows) rows rest
  unfolding page_from Leaves
  page_from-Leaves limit size taken bytes [] = ([], (refl, (λ h. refl), (λ h. cc)))
  page_from-Leaves limit size taken bytes (row ∷ rows) =
      elim (Bool-cases
        (leb limit taken || (ltb 0 taken && ltb page_json_bytes (bytes + size row)))) [
          | inl full ↦ rw full (row ∷ rows, (refl, (λ h. true≢false h), (λ h. (row, rows, refl))))
          | inr room ↦
              let (rest, (split, done, more)) =
                page_from-Leaves limit size (suc taken) (bytes + size row) rows in
              rw room (rest, (ap (λ tail. row ∷ tail) split, done, more))
        ]

  page_from-length :
      (limit : ℕ) (size : A → ℕ) (taken bytes : ℕ) (rows : List A)
      → taken ≤ limit
      → taken + length (page_from limit size taken bytes rows).rows ≤ limit
  unfolding page_from
  page_from-length limit size taken bytes [] l = omega arith
  page_from-length limit size taken bytes (row ∷ rows) l =
      elim (Bool-cases
        (leb limit taken || (ltb 0 taken && ltb page_json_bytes (bytes + size row)))) [
          | inl full ↦ rw full (omega arith)
          | inr room ↦ rw room (
              omega (
                arith,
                page_from-length limit size (suc taken) (bytes + size row) rows (ground arith),
              ))
        ]

  page_from-bytes :
      (limit : ℕ) (size : A → ℕ) (taken bytes : ℕ) (rows : List A)
      → 1 ≤ taken
      → ((page_from limit size taken bytes rows).rows ≡ [])
        ⊎ (bytes + bytes_of size (page_from limit size taken bytes rows).rows ≤ page_json_bytes)
  unfolding page_from bytes_of
  page_from-bytes limit size taken bytes [] l = inl refl
  page_from-bytes limit size taken bytes (row ∷ rows) l =
      elim (Bool-cases
        (leb limit taken || (ltb 0 taken && ltb page_json_bytes (bytes + size row)))) [
          | inl full ↦ rw full (inl refl)
          | inr room ↦ rw room (
              inr
                (elim (page_from-bytes limit size (suc taken) (bytes + size row) rows
                  (omega arith)) [
                    | inl none_left ↦ rw none_left (ground arith)
                    | inr fits ↦ omega (arith, fits)
                  ]))
        ]

  -- What a page of at least one row promises about its rows.
  unfoldable pub IsPage : ℕ → (A → ℕ) → List A → Page A → Type 0
  IsPage limit size rows page =
      (length page.rows ≤ limit)
      × ((length page.rows ≤ 1) ⊎ (bytes_of size page.rows ≤ page_json_bytes))
      × ((rows ≡ []) ⊎ (1 ≤ length page.rows))

  first_row :
      (limit : ℕ) (size : A → ℕ) (row : A) (rows : List A)
      → 1 ≤ limit
      → (page_rows limit size (row ∷ rows)).rows
        ≡ row ∷ (page_from limit size 1 (0 + size row) rows).rows
  unfolding page_rows page_from
  first_row limit size row rows l = rw (at_least l) refl
    where
      at_least : 1 ≤ limit → leb limit 0 ≡ false
      at_least l = ground arith

  page_rows-IsPage :
      (limit : ℕ) (size : A → ℕ) (rows : List A)
      → 1 ≤ limit
      → IsPage limit size rows (page_rows limit size rows)
  unfolding IsPage bytes_of page_rows page_from
  page_rows-IsPage limit size [] l = (empty_length, inl (omega arith), inl refl)
    where
      empty_length : length (page_rows limit size []).rows ≤ limit
      empty_length = omega arith
  page_rows-IsPage limit size (row ∷ rows) l = rw (first_row limit size row rows l) (
    omega (arith, page_from-length limit size 1 (0 + size row) rows l),
    within (page_from-bytes limit size 1 (0 + size row) rows (omega arith)),
    inr (omega arith),
  )
    where
      within :
          ((page_from limit size 1 (0 + size row) rows).rows ≡ [])
            ⊎ (0 + size row + bytes_of size (page_from limit size 1 (0 + size row) rows).rows
                ≤ page_json_bytes)
          → (suc (length (page_from limit size 1 (0 + size row) rows).rows) ≤ 1)
            ⊎ (size row + bytes_of size (page_from limit size 1 (0 + size row) rows).rows
                ≤ page_json_bytes)
      within (inl alone) = inl (rw alone (omega arith))
      within (inr fits) = inr (omega (arith, fits))

  -- A page that may have at least one row, followed by what it leaves, is the rows that were asked for,
  -- and it says that there is more exactly if it leaves any. It has at most `limit` rows, no more than
  -- 2 MiB of them unless it is a single row, and at least one row wherever there is one.
  pub page_rows-Leaves :
      (limit : ℕ) (size : A → ℕ) (rows : List A)
      → 1 ≤ limit
      → (rest : List A) × Leaves (page_rows limit size rows) rows rest
        × IsPage limit size rows (page_rows limit size rows)
  unfolding page_rows
  page_rows-Leaves limit size rows l =
      let (rest, leaves) = page_from-Leaves limit size 0 0 rows in
      (rest, leaves, page_rows-IsPage limit size rows l)
