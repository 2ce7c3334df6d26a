-- ===== src/Pi/Rows.antt =====
-- The rows of a batch: what the changes of a transition leave of the table, and how a change of one row
-- shows in it.
use managed_agents.Common.{
  ok_eq, ok, refuse-eq-ok, ℕ, suc, ◌≤◌, ◌<◌, ◌≡◌, refl, ap, ◌∙◌, sym, Bool, true, false, ◌||◌, List,
  [], ◌∷◌, any, Bool-cases, ltb→lt, subst, inl, inr, ◌==◌, ltb, arith,
}
use managed_agents.Pi.Tables.{BatchRow, put_row}
use managed_agents.Pi.Harness.{is_taken, upsert_batch, place_batch_row}

-- the table, once the rows are written in turn
unfoldable pub merged : List BatchRow → List BatchRow → List BatchRow
merged [] base = base
merged (row ∷ rows) base = merged rows (place_batch_row row base)

unfoldable pub has_key : ℕ → List BatchRow → Bool
has_key key rows = any (λ row. row.call_index == key) rows

-- keys from `least` on, each above the one before
unfoldable pub IsOrdered : ℕ → List BatchRow → Type 0
IsOrdered least [] = Unit
IsOrdered least (row ∷ rows) = (least ≤ row.call_index) × IsOrdered (suc row.call_index) rows

-- no key twice
unfoldable pub IsKeyed : List BatchRow → Type 0
IsKeyed [] = Unit
IsKeyed (row ∷ rows) = (has_key row.call_index rows ≡ false) × IsKeyed rows

pub put-place :
    (row other : BatchRow) (rows : List BatchRow)
    → other.call_index ≡ row.call_index
    → put_row row (place_batch_row other rows) ≡ place_batch_row row rows
unfolding put_row place_batch_row
put-place row other [] e = ground arith
put-place row other (r ∷ rows) e = ground (arith, put-place row other rows e)

pub put-place_comm :
    (row other : BatchRow) (rows : List BatchRow)
    → (row.call_index == other.call_index) ≡ false
    → has_key row.call_index rows ≡ true
    → put_row row (place_batch_row other rows) ≡ place_batch_row other (put_row row rows)
unfolding put_row place_batch_row has_key
put-place_comm row other [] d h = cc
put-place_comm row other (r ∷ rows) d h = ground (arith, put-place_comm row other rows d)

pub has_key-put :
    (key : ℕ) (row : BatchRow) (rows : List BatchRow)
    → has_key key (put_row row rows) ≡ (row.call_index == key || has_key key rows)
unfolding put_row has_key
has_key-put key row [] = ground arith
has_key-put key row (r ∷ rows) = ground (arith, has_key-put key row rows)

pub has_key-place :
    (key : ℕ) (row : BatchRow) (rows : List BatchRow)
    → has_key key (place_batch_row row rows) ≡ (row.call_index == key || has_key key rows)
unfolding place_batch_row has_key
has_key-place key row [] = ground arith
has_key-place key row (r ∷ rows) = ground (arith, has_key-place key row rows)

pub put-IsKeyed :
    (row : BatchRow) (rows : List BatchRow) → IsKeyed rows → IsKeyed (put_row row rows)
unfolding put_row IsKeyed has_key
put-IsKeyed row [] h = (refl, tt)
put-IsKeyed row (r ∷ rows) (fresh, h) = elim (Bool-cases (r.call_index == row.call_index)) [
  | inl e ↦ rw e (same e, h)
  | inr e ↦ rw e (other e, put-IsKeyed row rows h)
]
  where
    same : (r.call_index == row.call_index) ≡ true → has_key row.call_index rows ≡ false
    same e = ground arith

    other :
        (r.call_index == row.call_index) ≡ false → has_key r.call_index (put_row row rows) ≡ false
    other e = ground (arith, has_key-put r.call_index row rows)

pub place-IsOrdered :
    (least : ℕ) (row : BatchRow) (rows : List BatchRow)
    → least ≤ row.call_index
    → IsOrdered least rows
    → IsOrdered least (place_batch_row row rows)
unfolding place_batch_row IsOrdered
place-IsOrdered least row [] l h = (l, tt)
place-IsOrdered least row (r ∷ rows) l (first, h) =
    elim (Bool-cases (ltb row.call_index r.call_index)) [
      | inl below ↦ rw below (l, (ltb→lt row.call_index r.call_index below, h))
      | inr above ↦ rw above (elim (Bool-cases (row.call_index == r.call_index)) [
        | inl same ↦ rw same (l, subst (λ k. IsOrdered (suc k) rows) (eq_of same) h)
        | inr other ↦
            rw other (first, place-IsOrdered (suc r.call_index) row rows (after above other) h)
      ])
    ]
  where
    eq_of : (row.call_index == r.call_index) ≡ true → r.call_index ≡ row.call_index
    eq_of same = ground arith

    after :
        ltb row.call_index r.call_index ≡ false
        → (row.call_index == r.call_index) ≡ false
        → suc r.call_index ≤ row.call_index
    after above other = ground arith

pub has_key-above :
    (key least : ℕ) (rows : List BatchRow)
    → IsOrdered least rows
    → key < least
    → has_key key rows ≡ false
unfolding has_key IsOrdered
has_key-above key least [] h l = refl
has_key-above key least (r ∷ rows) (first, h) l =
    ground (arith, has_key-above key (suc r.call_index) rows h)

pub put-as-place :
    (least : ℕ) (row : BatchRow) (rows : List BatchRow)
    → IsOrdered least rows
    → has_key row.call_index rows ≡ true
    → put_row row rows ≡ place_batch_row row rows
unfolding put_row place_batch_row IsOrdered has_key
put-as-place least row [] h k = cc
put-as-place least row (r ∷ rows) (first, h) k = ground (
  arith,
  put-as-place (suc r.call_index) row rows h,
  has_key-above row.call_index (suc r.call_index) rows h,
)

pub put-merged_comm :
    (row : BatchRow) (rows base : List BatchRow)
    → has_key row.call_index rows ≡ false
    → has_key row.call_index base ≡ true
    → put_row row (merged rows base) ≡ merged rows (put_row row base)
unfolding merged has_key
put-merged_comm row [] base fresh h = refl
put-merged_comm row (r ∷ rows) base fresh h =
    put-merged_comm row rows (place_batch_row r base) (rest fresh) (kept h)
    ∙ ap (merged rows) (put-place_comm row r base (other fresh) h)
  where
    rest : has_key row.call_index (r ∷ rows) ≡ false → has_key row.call_index rows ≡ false
    rest f = ground arith

    kept :
        has_key row.call_index base ≡ true → has_key row.call_index (place_batch_row r base) ≡ true
    kept k = ground (arith, has_key-place row.call_index r base)

    other : has_key row.call_index (r ∷ rows) ≡ false → (row.call_index == r.call_index) ≡ false
    other f = ground arith

pub merged-put-same :
    (row r : BatchRow) (rows base : List BatchRow)
    → (r.call_index == row.call_index) ≡ true
    → has_key r.call_index rows ≡ false
    → merged (row ∷ rows) base ≡ put_row row (merged rows (place_batch_row r base))
unfolding merged
merged-put-same row r rows base e fresh =
    ap (merged rows) (sym (put-place row r base same))
    ∙ sym (
        put-merged_comm row rows (place_batch_row r base)
          (subst (λ k. has_key k rows ≡ false) same fresh) present)
  where
    same : r.call_index ≡ row.call_index
    same = ground arith

    present : has_key row.call_index (place_batch_row r base) ≡ true
    present = ground (arith, has_key-place row.call_index r base)

-- A change of a row shows in the table as a change of that row.
pub merged-put :
    (row : BatchRow) (rows base : List BatchRow)
    → IsKeyed rows
    → IsOrdered 0 base
    → has_key row.call_index (merged rows base) ≡ true
    → merged (put_row row rows) base ≡ put_row row (merged rows base)
unfolding merged put_row IsKeyed
merged-put row [] base unique ordered h = sym (put-as-place 0 row base ordered h)
merged-put row (r ∷ rows) base (fresh, unique) ordered h =
    elim (Bool-cases (r.call_index == row.call_index)) [
      | inl e ↦ rw e (merged-put-same row r rows base e fresh)
      | inr e ↦ rw e (
          merged-put row rows (place_batch_row r base) unique
            (place-IsOrdered 0 r base (omega arith) ordered) h)
    ]

upsert-merged :
    (rows base after : List BatchRow) → upsert_batch rows base ≡ ok after → after ≡ merged rows base
unfolding upsert_batch merged
upsert-merged [] base after e = sym (ok_eq e)
upsert-merged (row ∷ rows) base after e =
    let (_, e₁) = refuse-eq-ok (is_taken row base) _ _ e in
    upsert-merged rows (place_batch_row row base) after e₁

-- Let the rows that a transition has changed so far have distinct keys and the table be in the order of
-- its keys. If writing those rows leaves a batch that has the key of a row, then recording that row too
-- and writing all of them leaves the same batch with that row changed, if the table accepts them.
pub upsert_batch-put_row :
    (row : BatchRow) (rows base batch after : List BatchRow)
    → IsKeyed rows
    → IsOrdered 0 base
    → upsert_batch rows base ≡ ok batch
    → has_key row.call_index batch ≡ true
    → upsert_batch (put_row row rows) base ≡ ok after
    → after ≡ put_row row batch
upsert_batch-put_row row rows base batch after unique ordered e k e₁ =
    let written = upsert-merged rows base batch e in
    upsert-merged (put_row row rows) base after e₁
    ∙ merged-put row rows base unique ordered
        (subst (λ b. has_key row.call_index b ≡ true) written k)
    ∙ ap (put_row row) (sym written)
