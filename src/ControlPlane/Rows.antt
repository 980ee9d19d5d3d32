-- ===== src/ControlPlane/Rows.antt =====
-- Lists of rows under an update, a deletion and an insertion, and rows with a primary key.
use metamodels.Common.{
  suc, ◌+◌, ◌≤◌, String, ◌≡◌, refl, sym, ap, ◌∙◌, ◌⊎◌, inl, inr, Bool, true, false, not, ◌&&◌, ◌||◌,
  some, List, [], ◌∷◌, ◌++◌, arith, str_eq, eq_iff, ◌==◌, if◌then◌else◌, Bool-cases, is_some, find,
  any,
}
use metamodels.ControlPlane.Database.{update_where, delete_where, count_where}

module _ {A : Type 0} where
  pub any-count :
      (p : A → Bool) (rows : List A) → (count_where p rows == 0) ≡ false → any p rows ≡ true
  any-count p [] h = cc
  any-count p (r ∷ rows) h = ground (arith, any-count p rows)

  -- A row that has `q` has it still when the update passes it by.
  pub any-update_where :
      (p q : A → Bool) (f : A → A) (rows : List A)
      → any (λ r. q r && not (p r)) rows ≡ true
      → any q (update_where p f rows) ≡ true
  any-update_where p q f [] h = cc
  any-update_where p q f (r ∷ rows) h = ground (arith, any-update_where p q f rows)

  -- An update that takes `q` from no row.
  pub any-update_kept :
      (p q : A → Bool) (f : A → A) (rows : List A)
      → ((r : A) → p r ≡ true → q r ≡ true → q (f r) ≡ true)
      → any q rows ≡ true
      → any q (update_where p f rows) ≡ true
  any-update_kept p q f [] k h = cc
  any-update_kept p q f (r ∷ rows) k h = ground (arith, k r, any-update_kept p q f rows k)

  pub any_split :
      (p q : A → Bool) (rows : List A)
      → any q rows ≡ true
      → (any (λ r. q r && not (p r)) rows ≡ true) ⊎ (any (λ r. p r && q r) rows ≡ true)
  any_split p q [] h = cc
  any_split p q (r ∷ rows) h = ground (arith, any_split p q rows)

  pub any_mono :
      (p q : A → Bool) (rows : List A)
      → ((r : A) → p r ≡ true → q r ≡ true)
      → any p rows ≡ true
      → any q rows ≡ true
  any_mono p q [] k h = cc
  any_mono p q (r ∷ rows) k h = ground (arith, k r, any_mono p q rows k)

  pub any_less :
      (p q : A → Bool) (rows : List A)
      → ((r : A) → p r ≡ false → q r ≡ false)
      → any p rows ≡ false
      → any q rows ≡ false
  any_less p q [] k h = refl
  any_less p q (r ∷ rows) k h = ground (arith, k r, any_less p q rows k)

  pub find_passes : (p : A → Bool) (t : A) (rows : List A) → find p rows ≡ some t → p t ≡ true
  find_passes p t [] h = cc
  find_passes p t (r ∷ rows) h = ground (arith, find_passes p t rows)

  pub find-any :
      (p q : A → Bool) (t : A) (rows : List A)
      → find p rows ≡ some t
      → q t ≡ true
      → any q rows ≡ true
  find-any p q t [] h k = cc
  find-any p q t (r ∷ rows) h k = ground (arith, find-any p q t rows)

  -- An update that `q` does not read.
  pub any-update_same :
      (p q : A → Bool) (f : A → A) (rows : List A)
      → ((r : A) → q (f r) ≡ q r)
      → any q (update_where p f rows) ≡ any q rows
  any-update_same p q f [] k = refl
  any-update_same p q f (r ∷ rows) k = ground (arith, k r, any-update_same p q f rows k)

  -- An update that takes `q` from every row that has it.
  pub any-update_cleared :
      (p q : A → Bool) (f : A → A) (rows : List A)
      → ((r : A) → p r ≡ true → q (f r) ≡ false)
      → ((r : A) → q r ≡ true → p r ≡ true)
      → any q (update_where p f rows) ≡ false
  any-update_cleared p q f [] k j = refl
  any-update_cleared p q f (r ∷ rows) k j =
      ground (arith, k r, j r, any-update_cleared p q f rows k j)

  pub any_less_two :
      (p c q : A → Bool) (rows : List A)
      → ((r : A) → p r ≡ false → c r ≡ false → q r ≡ false)
      → any p rows ≡ false
      → any c rows ≡ false
      → any q rows ≡ false
  any_less_two p c q [] k h j = refl
  any_less_two p c q (r ∷ rows) k h j = ground (arith, k r, any_less_two p c q rows k)

  pub is_some-find : (p : A → Bool) (rows : List A) → is_some (find p rows) ≡ any p rows
  is_some-find p [] = refl
  is_some-find p (r ∷ rows) = ground (arith, is_some-find p rows)

  pub find_new :
      (p : A → Bool) (rows : List A) (new : A)
      → any p rows ≡ false
      → p new ≡ true
      → find p (rows ++ new ∷ []) ≡ some new
  find_new p [] new h k = ground arith
  find_new p (r ∷ rows) new h k = ground (arith, find_new p rows new)

  pub find_updated :
      (p q : A → Bool) (f : A → A) (t : A) (rows : List A)
      → ((r : A) → q (f r) ≡ q r)
      → find q rows ≡ some t
      → find q (update_where p f rows) ≡ some (if p t then f t else t)
  find_updated p q f t [] k h = cc
  find_updated p q f t (r ∷ rows) k h = ground (arith, k r, find_updated p q f t rows k)

  pub any-snoc :
      (p : A → Bool) (rows : List A) (new : A) → any p (rows ++ new ∷ []) ≡ (any p rows || p new)
  any-snoc p [] new = ground arith
  any-snoc p (r ∷ rows) new = ground (arith, any-snoc p rows new)

  pub any-append :
      (p : A → Bool) (rows more : List A) → any p rows ≡ true → any p (rows ++ more) ≡ true
  any-append p [] more h = cc
  any-append p (r ∷ rows) more h = ground (arith, any-append p rows more)

  pub count-append :
      (p : A → Bool) (rows more : List A)
      → count_where p (rows ++ more) ≡ count_where p rows + count_where p more
  count-append p [] more = omega arith
  count-append p (r ∷ rows) more = ground (arith, count-append p rows more)

  pub count_delete :
      (p q : A → Bool) (rows : List A) → count_where q (delete_where p rows) ≤ count_where q rows
  count_delete p q [] = omega arith
  count_delete p q (r ∷ rows) = ground (arith, count_delete p q rows)

  -- An update that gives `q` to no row.
  pub count_update :
      (p q : A → Bool) (f : A → A) (rows : List A)
      → ((r : A) → p r ≡ true → q (f r) ≡ true → q r ≡ true)
      → count_where q (update_where p f rows) ≤ count_where q rows
  count_update p q f [] k = omega arith
  count_update p q f (r ∷ rows) k = ground (arith, k r, count_update p q f rows k)

  -- An update that takes `q` from all its rows, of which one had it.
  pub count_update_less :
      (p q : A → Bool) (f : A → A) (rows : List A)
      → ((r : A) → q (f r) ≡ false)
      → any (λ r. p r && q r) rows ≡ true
      → suc (count_where q (update_where p f rows)) ≤ count_where q rows
  count_update_less p q f [] k h = cc
  count_update_less p q f (r ∷ rows) k h =
      ground
        (arith, k r, count_update_less p q f rows k, count_update p q f rows (λ x _ e. cc (k x)))

-- No two rows have one key.
module _ {A : Type 0} (key : A → String) where
  abbrev pub has_key : String → List A → Bool
  has_key id rows = any (λ r. str_eq (key r) id) rows

  abbrev pub IsKeyed : List A → Type 0
  IsKeyed [] = Unit
  IsKeyed (r ∷ rows) = (has_key (key r) rows ≡ false) × IsKeyed rows

  pub has_key-update_where :
      (p : A → Bool) (f : A → A) (id : String) (rows : List A)
      → ((r : A) → key (f r) ≡ key r)
      → has_key id (update_where p f rows) ≡ has_key id rows
  has_key-update_where p f id [] k = refl
  has_key-update_where p f id (r ∷ rows) k = elim (Bool-cases (p r)) [
    | inl e ↦ rw (e, k r, has_key-update_where p f id rows k)
    | inr e ↦ rw (e, has_key-update_where p f id rows k)
  ]

  pub update_where-IsKeyed :
      (p : A → Bool) (f : A → A) (rows : List A)
      → ((r : A) → key (f r) ≡ key r)
      → IsKeyed rows
      → IsKeyed (update_where p f rows)
  update_where-IsKeyed p f [] k h = h
  update_where-IsKeyed p f (r ∷ rows) k (fresh, h) = (
    elim (Bool-cases (p r)) [
      | inl e ↦ rw (e, k r, has_key-update_where p f (key r) rows k, fresh)
      | inr e ↦ rw (e, has_key-update_where p f (key r) rows k, fresh)
    ],
    update_where-IsKeyed p f rows k h,
  )

  pub has_key-append :
      (id : String) (rows : List A) (new : A)
      → has_key id rows ≡ false
      → str_eq (key new) id ≡ false
      → has_key id (rows ++ new ∷ []) ≡ false
  has_key-append id [] new h k = ground arith
  has_key-append id (r ∷ rows) new h k = ground (arith, has_key-append id rows new)

  pub insert-IsKeyed :
      (rows : List A) (new : A)
      → has_key (key new) rows ≡ false
      → IsKeyed rows
      → IsKeyed (rows ++ new ∷ [])
  insert-IsKeyed [] new h k = (refl, tt)
  insert-IsKeyed (r ∷ rows) new h (fresh, k) = (
    has_key-append (key r) rows new fresh
        (ground (arith, eq_iff (key new) (key r), eq_iff (key r) (key new))),
    insert-IsKeyed rows new (ground arith) k,
  )

  -- The test `p` asks for the key `id`, so one row at most passes it.
  module _ (p : A → Bool) (id : String) (asks : (r : A) → p r ≡ true → key r ≡ id) where
    pub any_absent :
        (q : A → Bool) (rows : List A)
        → has_key id rows ≡ false
        → any (λ r. p r && q r) rows ≡ false
    any_absent q [] h = refl
    any_absent q (r ∷ rows) h = ground (arith, asks r, eq_iff (key r) id, any_absent q rows)

    pub find_only :
        (q : A → Bool) (t : A) (rows : List A)
        → IsKeyed rows
        → find p rows ≡ some t
        → any (λ r. p r && q r) rows ≡ true
        → q t ≡ true
    find_only q t [] k f h = cc
    find_only q t (r ∷ rows) (fresh, k) f h = elim (Bool-cases (p r)) [
      | inl e ↦
          ground (arith, any_absent q rows (sym (ap (λ i. has_key i rows) (asks r e)) ∙ fresh))
      | inr e ↦ ground (arith, find_only q t rows k)
    ]

    pub count_absent :
        (q : A → Bool) (f : A → A) (rows : List A)
        → has_key id rows ≡ false
        → count_where q (update_where p f rows) ≡ count_where q rows
    count_absent q f [] h = refl
    count_absent q f (r ∷ rows) h = ground (arith, asks r, eq_iff (key r) id, count_absent q f rows)

    pub count_update_one :
        (q : A → Bool) (f : A → A) (rows : List A)
        → IsKeyed rows
        → count_where q (update_where p f rows) ≤ suc (count_where q rows)
    count_update_one q f [] k = omega arith
    count_update_one q f (r ∷ rows) (fresh, k) = elim (Bool-cases (p r)) [
      | inl e ↦
          ground (arith, count_absent q f rows (sym (ap (λ i. has_key i rows) (asks r e)) ∙ fresh))
      | inr e ↦ ground (arith, count_update_one q f rows k)
    ]

    pub count_update_same :
        (q : A → Bool) (f : A → A) (t : A) (rows : List A)
        → IsKeyed rows
        → find p rows ≡ some t
        → q t ≡ true
        → count_where q (update_where p f rows) ≤ count_where q rows
    count_update_same q f t [] k g h = cc
    count_update_same q f t (r ∷ rows) (fresh, k) g h = elim (Bool-cases (p r)) [
      | inl e ↦
          ground (arith, count_absent q f rows (sym (ap (λ i. has_key i rows) (asks r e)) ∙ fresh))
      | inr e ↦ ground (arith, count_update_same q f t rows k)
    ]
