-- ===== src/Storage/Tests.antt =====
-- Small files, and the theorems at concrete inputs.
use hector_core.Prelude.{
  ℕ, ◌+◌, Bool, true, false, Option, none, some, List, [], ◌∷◌, arith, ◌≡◌, refl, pos, ltb, inl,
}
use hector_core.Processor.{Resource}
use hector_core.Storage.Load
use hector_core.Storage.Load.{
  Item, resource, marker, Load, has_marker, file_loop, after_copy, after_item, skip_loop,
  after_read, read_one, emit, after_skip,
}
use hector_core.Storage.Save
use hector_core.Storage.Save.{
  Save, process_outputs, process_output, then_output, write, next_file, is_full, counted_size,
  save_one, then_multi, rotate,
}
use hector_core.Storage.Rotation.{IsRotated, Stored, process_outputs-Stored}
use hector_core.Storage.Loaded.{collect, loading}
use hector_core.Storage.RoundTrip.{IsSound, read_frame, frames, back, serializes, save-load}
use hector_core.Storage.Copies.{Appends, process_multi-Appends, Copied, process_multi-Copied}

abbrev new_save : {A : Type 0} → ℕ → ℕ → Save A
new_save max_items max_size = record {
  items = 0;
  max_items = max_items;
  max_size = max_size;
  saved_items = 0;
  saved_size = 0;
  file_id = 1;
  opened = true;
  written = [];
}

-- Numbers are their own sizes, and all can be written.
abbrev own_size : ℕ → ℕ
own_size n = n

abbrev always : ℕ → Bool
always n = true

new_save-IsRotated : (m n : ℕ) → IsRotated own_size always (new_save m n)
new_save-IsRotated m n = record {
  items_limit = λ k g. omega arith;
  size_limit = λ k g. inl (omega arith);
  items_counted = refl;
  size_counted = λ g. refl;
  unused = λ k l. refl;
}

-- Files of at most two numbers, with the sum five.
abbrev saved : Save ℕ
saved = record (new_save 2 5) {
  items = 4;
  saved_items = 1;
  saved_size = 7;
  file_id = 3;
  written = (1, 2) ∷ (1, 1) ∷ (2, 1) ∷ (3, 7) ∷ [];
}

process_outputs-Stored_example : Stored own_size always (2 ∷ 1 ∷ 1 ∷ 7 ∷ []) (new_save 2 5) saved
unfolding process_outputs process_output then_output write next_file is_full counted_size
process_outputs-Stored_example =
    process_outputs-Stored own_size always true (2 ∷ 1 ∷ 1 ∷ 7 ∷ []) (new_save 2 5) saved
      (new_save-IsRotated 2 5) refl

process_multi-Copied_example : Copied own_size always (ltb 1) (2 ∷ 1 ∷ 7 ∷ []) [] (new_save 1 0) (
  2 ∷ 1 ∷ 7 ∷ [],
  record (new_save 1 0) { items = 2; file_id = 3; written = (1, 2) ∷ (2, 7) ∷ [] },
)
unfolding Save.process_multi save_one then_multi rotate
process_multi-Copied_example =
    process_multi-Copied own_size always true (ltb 1) (2 ∷ 1 ∷ 7 ∷ []) [] (new_save 1 0)
      (
        2 ∷ 1 ∷ 7 ∷ [],
        record (new_save 1 0) { items = 2; file_id = 3; written = (1, 2) ∷ (2, 7) ∷ [] },
      )
      refl

-- A file of numbers.
abbrev next_number : List ℕ → Option ℕ × List ℕ
next_number [] = (none, [])
next_number (n ∷ s) = (some n, s)

process_multi-Appends_example :
    Appends next_number
      (resource 3 ∷ [])
      false
      (loading next_number 0 0 0 false none false false (4 ∷ []))
      (Load.process_multi next_number
        (λ n. false)
        (resource 3 ∷ [])
        []
        (loading next_number 0 0 0 false none false false (4 ∷ [])))
process_multi-Appends_example =
    process_multi-Appends next_number (λ n. false) (resource 3 ∷ []) []
      (loading next_number 0 0 0 false none false false (4 ∷ []))

-- A class of resources that writes its number.
abbrev page : Resource ℕ
page = record { id = 7; type_id = 1; status = pos 0; skip = false; deleted = false; content = 100 }

abbrev write_number : Resource ℕ → Option (List ℕ)
write_number r = some (r.content ∷ [])

abbrev read_number : Resource ℕ → List ℕ → Option (Resource ℕ × List ℕ)
read_number r [] = none
read_number r (n ∷ s) = some (record r { content = n }, s)

abbrev blank : ℕ → Resource ℕ
blank t = record page { id = 0; type_id = t; content = 0 }

abbrev acquire_blank : ℕ → Option (Resource ℕ)
acquire_blank t = some (blank t)

page-IsSound : IsSound write_number read_number acquire_blank blank page
page-IsSound = record {
  payload = 100 ∷ [];
  small_type = omega arith;
  small_id = omega arith;
  int_status = omega arith;
  acquired = refl;
  serialized = refl;
  reads_back = λ x rest. refl;
}

abbrev same_size : Resource ℕ → ℕ
same_size r = 1

abbrev pages_saved : Save (Resource ℕ)
pages_saved = record (new_save 1 0) {
  items = 2;
  saved_items = 1;
  file_id = 2;
  written = (1, page) ∷ (2, page) ∷ [];
}

abbrev serializes_page : Resource ℕ → Bool
serializes_page = serializes write_number read_number acquire_blank blank

pages-IsRotated : IsRotated same_size serializes_page (new_save 1 0)
pages-IsRotated = record {
  items_limit = λ k g. omega arith;
  size_limit = λ k g. inl (omega arith);
  items_counted = refl;
  size_counted = λ g. refl;
  unused = λ k l. refl;
}

save-load_example :
    collect (read_frame write_number read_number acquire_blank blank) (2 + 2) (
      loading
        (read_frame write_number read_number acquire_blank blank)
        0
        0
        0
        false
        (some 9)
        false
        false
        (frames write_number read_number acquire_blank blank (page ∷ page ∷ [])))
    ≡ resource (back write_number read_number acquire_blank blank page)
      ∷ resource (back write_number read_number acquire_blank blank page)
      ∷ marker 9
      ∷ []
unfolding process_outputs process_output then_output write next_file is_full counted_size serializes
save-load_example =
    save-load write_number read_number acquire_blank blank same_size true (page ∷ page ∷ [])
      (new_save 1 0) pages_saved 0 (some 9) pages-IsRotated refl refl
      (page-IsSound, (page-IsSound, tt)) refl
