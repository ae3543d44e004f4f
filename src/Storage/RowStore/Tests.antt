-- ===== src/Storage/RowStore/Tests.antt =====
-- The same-page update of src/storage/storage_manager.cpp on a page with two records.
use seeddb.Base.{[], ◌∷◌, arith}
use seeddb.Storage.Page.Tests.{loaded, loaded-IsValid, loaded_reads, loaded_room}
use seeddb.Storage.RowStore.Replace.{ReplaceOutcome, replace_record_lem}

replace_record_lem_example : ReplaceOutcome loaded 0 (9 ∷ 8 ∷ 7 ∷ 6 ∷ [])
replace_record_lem_example =
    replace_record_lem loaded 0 (1 ∷ 2 ∷ 3 ∷ []) (9 ∷ 8 ∷ 7 ∷ 6 ∷ []) loaded-IsValid loaded_reads
      (omega arith) (omega arith) (omega (arith, loaded_room))
