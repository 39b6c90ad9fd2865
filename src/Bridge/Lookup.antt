-- ===== src/Bridge/Lookup.antt =====
-- The lookup of a control's entry (PanelBridge.cpp) is a search of the whole table.
use open_skyhawk.Base.{
  ℕ, zero, suc, ◌+◌, ◌-◌, ◌/◌, ◌≤◌, ◌<◌, ◌≡◌, ◌≢◌, inl, inr, refl, false, Option, none, some, arith,
  if◌then◌else◌, Bool-cases, ◌==◌, ltb, leb, sym, ◌∙◌, ap, List, [], ◌∷◌, length,
}
use open_skyhawk.Bridge.Dispatch.{DcsBiosInputEntry, entry, lookup_from, lookup_dcs_entry}

-- the first entry of a control
unfoldable pub find_entry : List DcsBiosInputEntry → ℕ → Option DcsBiosInputEntry
find_entry [] id = none
find_entry (e ∷ es) id = let rest = find_entry es id in if e.cmd_id == id then some e else rest

-- the table's numbers ascend
abbrev pub Ascends : List DcsBiosInputEntry → Type 0
Ascends map = (i j : ℕ) → i < j → j < length map → (entry map i).cmd_id < (entry map j).cmd_id

-- what a search of the whole table finds
data Found (map : List DcsBiosInputEntry) (id : ℕ) : Type 0 where
  at_index :
      (k : ℕ)
      → k < length map
      → (entry map k).cmd_id ≡ id
      → find_entry map id ≡ some (entry map k)
      → Found map id
  nowhere :
      ((k : ℕ) → k < length map → (entry map k).cmd_id ≢ id)
      → find_entry map id ≡ none
      → Found map id

no_index :
    (e : DcsBiosInputEntry) (map : List DcsBiosInputEntry) (id : ℕ)
    → (e.cmd_id == id) ≡ false
    → ((k : ℕ) → k < length map → (entry map k).cmd_id ≢ id)
    → (k : ℕ) → k < length (e ∷ map)
    → (entry (e ∷ map) k).cmd_id ≢ id
no_index e map id n f zero l = λ s. ground (arith, n)
no_index e map id n f (suc k) l = f k (omega arith)

Found-cons :
    (e : DcsBiosInputEntry) (map : List DcsBiosInputEntry) (id : ℕ)
    → (e.cmd_id == id) ≡ false
    → Found map id
    → Found (e ∷ map) id
unfolding find_entry
Found-cons e map id n (at_index k l s f) = at_index (suc k) (omega arith) s (rw n f)
Found-cons e map id n (nowhere f g) = nowhere (no_index e map id n f) (rw n g)

search : (map : List DcsBiosInputEntry) (id : ℕ) → Found map id
unfolding find_entry
search [] id = nowhere (λ k l. ground arith) refl
search (e ∷ map) id = elim (Bool-cases (e.cmd_id == id)) [
  | inl s ↦ at_index 0 (omega arith) (ground (arith, s)) (rw s refl)
  | inr n ↦ Found-cons e map id n (search map id)
]

module _ (map : List DcsBiosInputEntry) (id : ℕ) where
  lookup_from-nowhere :
      ((k : ℕ) → k < length map → (entry map k).cmd_id ≢ id)
      → (f lo hi : ℕ) → hi ≤ length map
      → lookup_from f map id lo hi ≡ none
  unfolding lookup_from
  lookup_from-nowhere out zero lo hi l = refl
  lookup_from-nowhere out (suc f) lo hi l =
      let mid = (lo + (hi - 1)) / 2 in
      elim (Bool-cases (leb hi lo)) [
        | inl e ↦ rw (e, lookup_from) refl
        | inr e ↦
            let miss : ((entry map mid).cmd_id == id) ≡ false = ground (arith, out mid, e) in
            rw (e, lookup_from)
              (rw (miss, lookup_from) (lookup_from-nowhere out f _ _ (ground (arith, e))))
      ]

  lookup_from-at_index :
      Ascends map
      → (k : ℕ) → (entry map k).cmd_id ≡ id
      → (f lo hi : ℕ) → lo ≤ k
      → k < hi
      → hi ≤ length map
      → hi ≤ lo + f
      → lookup_from f map id lo hi ≡ some (entry map k)
  unfolding lookup_from
  lookup_from-at_index up k s zero lo hi a b c d = ground arith
  lookup_from-at_index up k s (suc f) lo hi a b c d =
      let mid = (lo + (hi - 1)) / 2 in
      let nonempty : leb hi lo ≡ false = ground arith in
      rw (nonempty, lookup_from)
        (elim (Bool-cases ((entry map mid).cmd_id == id)) [
          | inl e ↦
              let same : k ≡ mid = ground (arith, up k mid, up mid k, e) in
              rw (e, lookup_from) (ap (λ m. some (entry map m)) (sym same))
          | inr e ↦
              rw (e, lookup_from)
                (elim (Bool-cases (ltb (entry map mid).cmd_id id)) [
                  | inl lt ↦
                      let above : mid < k = ground (arith, up k mid, e, lt) in
                      rw lt
                        (lookup_from-at_index up k s f (mid + 1) hi (omega arith) b c (omega arith))
                  | inr ge ↦
                      let under : k < mid = ground (arith, up mid k, e, ge) in
                      rw ge
                        (lookup_from-at_index up k s f lo mid a under (omega arith) (omega arith))
                ])
        ])

lookup-Found :
    (map : List DcsBiosInputEntry) (id : ℕ)
    → Ascends map
    → Found map id
    → lookup_dcs_entry map id ≡ find_entry map id
unfolding lookup_dcs_entry
lookup-Found map id up (at_index k l s f) =
    lookup_from-at_index map id up k s (length map) 0 (length map) (omega arith) l (omega arith)
      (omega arith)
    ∙ sym f
lookup-Found map id up (nowhere out f) =
    lookup_from-nowhere map id out (length map) 0 (length map) (omega arith) ∙ sym f

-- In a table whose numbers ascend, the bisection finds what a search of the whole table finds, and
-- nothing where that finds nothing.
pub lookup_dcs_entry-find_entry :
    (map : List DcsBiosInputEntry) (id : ℕ)
    → Ascends map
    → lookup_dcs_entry map id ≡ find_entry map id
lookup_dcs_entry-find_entry map id up = lookup-Found map id up (search map id)
