-- ===== src/Registry/Table.antt =====
-- registry.c: the shape that its three tables share, an array of fixed size with a count of the
-- slots in use, appended to by the `registry_add_*` functions and scanned from slot 0 by the
-- `registry_find_*` functions. `contents` is the abstract view: the entries in use, oldest first.
use dlssnr_on_amd_linux.Common.{
  ℕ, zero, suc, ◌+◌, ◌≤◌, ◌≡◌, refl, sym, ap, ◌∙◌, Option, none, some, List, [], ◌∷◌, ◌++◌, arith,
  Bool, true, false, leb, ◌==◌, if◌then◌else◌, length, set, take, length-set, take-set,
  length-take_of_le, take-append_exact, take_of_length-le, append-nil, append_assoc, Bool-cases,
  inl, inr,
}

pub record Table {ℓ} (E : Type ℓ) : Type ℓ where
  pub slots : List E
  pub count : ℕ

module _ {ℓ} {E : Type ℓ} where
  -- The body of a `registry_add_*` function: 0 if the table is full, else 1 and the new entry.
  unfoldable pub add : ℕ → E → Table E → ℕ × Table E
  add limit e t =
      if leb limit t.count
      then (0, t)
      else (1, record { slots = set t.slots t.count e; count = t.count + 1 })

  -- The loop of a `registry_find_*` function, over the rounds left: the first slot whose key is `k`.
  unfoldable pub scan : (E → ℕ) → ℕ → List E → ℕ → Option E
  scan key k slots zero = none
  scan key k [] (suc rounds) = none
  scan key k (e ∷ slots) (suc rounds) = if key e == k then some e else scan key k slots rounds

  unfoldable pub find : (E → ℕ) → ℕ → Table E → Option E
  unfolding scan
  find key k t = scan key k t.slots t.count

  -- The table is an array of `limit` slots, of which at most all are in use.
  pub record IsValid (limit : ℕ) (t : Table E) : Type ℓ where
    pub sized : length t.slots ≡ limit
    pub bounded : t.count ≤ limit

  -- The registered entries, oldest first.
  unfoldable pub contents : Table E → List E
  contents t = take t.count t.slots

  -- The first entry of a list with the key.
  unfoldable pub first : (E → ℕ) → ℕ → List E → Option E
  first key k [] = none
  first key k (e ∷ es) = if key e == k then some e else first key k es

  unfoldable pub or_else : Option E → Option E → Option E
  or_else none b = b
  or_else (some a) b = some a

  scan-first :
      (key : E → ℕ) (k n : ℕ) (slots : List E) → scan key k slots n ≡ first key k (take n slots)
  unfolding scan first
  scan-first key k zero slots = refl
  scan-first key k (suc n) [] = refl
  scan-first key k (suc n) (e ∷ slots) = rw (scan-first key k n slots)

  pub find-first : (key : E → ℕ) (k : ℕ) (t : Table E) → find key k t ≡ first key k (contents t)
  unfolding find contents
  find-first key k t = scan-first key k t.count t.slots

  pub first-append :
      (key : E → ℕ) (k : ℕ) (xs ys : List E)
      → first key k (xs ++ ys) ≡ or_else (first key k xs) (first key k ys)
  unfolding first or_else
  first-append key k [] ys = refl
  first-append key k (x ∷ xs) ys = ground (arith, first-append key k xs ys)

  pub add-IsValid :
      (limit : ℕ) (e : E) (t : Table E) → IsValid limit t → IsValid limit (add limit e t).1
  unfolding add
  add-IsValid limit e t v = ground (arith, length-set t.slots t.count e)

  pub contents-add :
      (limit : ℕ) (e : E) (t : Table E)
      → IsValid limit t
      → contents (add limit e t).1
        ≡ (if leb limit t.count then contents t else contents t ++ e ∷ [])
  unfolding add contents
  contents-add limit e t v = elim (Bool-cases (leb limit t.count)) [
    | inl full ↦ rw (full, add)
    | inr room ↦ rw (room, add) (rw add-one-suc (take-set t.count t.slots e (ground arith)))
  ]
    where
      add-one-suc : t.count + 1 ≡ suc t.count
      add-one-suc = omega arith

  -- What a lookup finds after a registration, on every branch.
  pub find-add :
      (limit : ℕ) (key : E → ℕ) (k : ℕ) (e : E) (t : Table E)
      → IsValid limit t
      → find key k (add limit e t).1 ≡ (
          if leb limit t.count
          then find key k t
          else or_else (find key k t) (if key e == k then some e else none))
  unfolding first
  find-add limit key k e t v = rw (find-first key k t) (
      find-first key k (add limit e t).1
      ∙ ap (first key k) (contents-add limit e t v)
      ∙ by_room (leb limit t.count))
    where
      by_room :
          (full : Bool)
          → first key k (if full then contents t else contents t ++ e ∷ []) ≡ (
              if full
              then first key k (contents t)
              else or_else (first key k (contents t)) (if key e == k then some e else none))
      by_room true = refl
      by_room false = first-append key k (contents t) (e ∷ [])

  -- A run of registrations, in order.
  unfoldable pub add_all : ℕ → List E → Table E → Table E
  add_all limit [] t = t
  add_all limit (e ∷ es) t = add_all limit es (add limit e t).1

  pub length-contents : (limit : ℕ) (t : Table E) → IsValid limit t → length (contents t) ≡ t.count
  unfolding contents
  length-contents limit t v = length-take_of_le t.count t.slots (omega arith)

  take_full :
      (limit : ℕ) (es : List E) (t : Table E)
      → IsValid limit t
      → limit ≤ t.count
      → take limit (contents t ++ es) ≡ contents t
  take_full limit es t v full =
      take-append_exact limit (contents t) es (omega (arith, length-contents limit t v))

  -- The table keeps exactly the first `limit` entries that were ever registered.
  pub contents-add_all :
      (limit : ℕ) (es : List E) (t : Table E)
      → IsValid limit t
      → contents (add_all limit es t) ≡ take limit (contents t ++ es)
  unfolding add_all
  contents-add_all limit [] t v =
      rw append-nil
        (sym (take_of_length-le limit (contents t) (omega (arith, length-contents limit t v))))
  contents-add_all limit (e ∷ es) t v =
      let rest = contents-add_all limit es (add limit e t).1 (add-IsValid limit e t v) in
      elim (Bool-cases (leb limit t.count)) [
        | inl full ↦
            rw (rest, contents-add limit e t v, full)
              (take_full limit es t v (ground arith)
                ∙ sym (take_full limit (e ∷ es) t v (ground arith)))
        | inr room ↦
            rw (rest, contents-add limit e t v, room)
              (ap (take limit) (append_assoc (contents t) (e ∷ []) es))
      ]
