-- ===== src/Storage/Save.antt =====
-- ProcessOutputSync and ProcessMultiSync of lib/processing_engine/module/Save.cc. What is written is a log:
-- each resource with the value of `fileId` for which the stream was opened that it went to.
use hector_core.Prelude.{
  ℕ, suc, ◌+◌, ◌%◌, Bool, true, false, ◌&&◌, ◌||◌, Option, none, some, List, [], ◌∷◌, ◌++◌,
  if◌then◌else◌, ◌==◌, ltb,
}

-- The fields of the module; a limit that is not positive is 0. `opened` is whether the stream is not
-- NULL.
pub record Save (A : Type 0) : Type 0 where
  pub items : ℕ
  pub max_items : ℕ
  pub max_size : ℕ
  pub saved_items : ℕ
  pub saved_size : ℕ
  pub file_id : ℕ
  pub opened : Bool
  pub written : List (ℕ × A)

-- `GetSize` and the success of `SerializeResource`.
module _ {A : Type 0} (size : A → ℕ) (serializes : A → Bool) where
  -- `size`, which is only asked for where there is a limit on it.
  unfoldable pub counted_size : Save A → A → ℕ
  counted_size s r = if ltb 0 s.max_size then size r else 0

  -- The test before a resource is written.
  unfoldable pub is_full : Save A → ℕ → Bool
  is_full s n =
      (ltb 0 s.max_items && s.saved_items == s.max_items)
      || (ltb 0 s.max_size && ltb s.max_size (s.saved_size + n))

  -- `fileId++` and `ReopenFile`, whose result is not looked at: where it fails, the stream is deleted
  -- and used, which is `none`.
  unfoldable pub next_file : Bool → Save A → Option (Save A)
  next_file false s = none
  next_file true s = some (record s { file_id = suc s.file_id; saved_items = 0; saved_size = 0 })

  unfoldable pub write : A → ℕ → Option (Save A) → Option (Save A)
  write r n none = none
  write r n (some s) =
      if serializes r
      then some (record s {
        items = suc s.items;
        saved_items = suc s.saved_items;
        saved_size = s.saved_size + n;
        written = s.written ++ (s.file_id, r) ∷ [];
      })
      else some s

  -- `reopens`: whether the next file can be opened. The resource is returned as it is.
  unfoldable pub process_output : Bool → A → Save A → Option (Save A)
  unfolding counted_size is_full next_file write
  process_output reopens r s =
      if s.opened
      then write r (counted_size s r)
          (if is_full s (counted_size s r) then next_file reopens s else some s)
      else some s

  -- One resource after the other.
  unfoldable pub then_output : (Save A → Option (Save A)) → Option (Save A) → Option (Save A)
  then_output rest none = none
  then_output rest (some s) = rest s

  unfoldable pub process_outputs : Bool → List A → Save A → Option (Save A)
  unfolding process_output then_output
  process_outputs reopens [] s = some s
  process_outputs reopens (r ∷ rs) s =
      then_output (process_outputs reopens rs) (process_output reopens r s)

  -- `ProcessMultiSync`: `wanted` is the filter on the types. The counter of the test of the time is set
  -- to 0 for each resource, so that the loop never stops for it. Here the next file is begun by the
  -- number of all items, and its size is not looked at.
  unfoldable pub rotate : Bool → Save A → Option (Save A)
  rotate reopens s =
      if ltb 0 s.max_items && s.items % s.max_items == 0
      then (if reopens then some (record s { file_id = suc s.file_id }) else none)
      else some s

  unfoldable pub save_one : Bool → A → Save A → Option (Save A)
  unfolding rotate
  save_one reopens r s =
      if s.opened && serializes r
      then rotate reopens
          (record s { items = suc s.items; written = s.written ++ (s.file_id, r) ∷ [] })
      else some s

  unfoldable pub then_multi :
      A
      → (List A → Save A → Option (List A × Save A))
      → List A
      → Option (Save A)
      → Option (List A × Save A)
  then_multi r rest outputs none = none
  then_multi r rest outputs (some s) = rest (outputs ++ r ∷ []) s

  unfoldable pub process_multi :
      Bool → (A → Bool) → List A → List A → Save A → Option (List A × Save A)
  unfolding save_one then_multi
  process_multi reopens wanted [] outputs s = some (outputs, s)
  process_multi reopens wanted (r ∷ rs) outputs s =
      then_multi r (process_multi reopens wanted rs) outputs
        (if wanted r then save_one reopens r s else some s)
