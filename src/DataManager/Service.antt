-- ===== src/DataManager/Service.antt =====
-- The data manager as the `DataOps` of the store.
use mirdb.Prelude.{refl, Slice}
use mirdb.Error.{Action}
use mirdb.Request.{Request}
use mirdb.Response.{Response}
use mirdb.Store.{DataOps}
use mirdb.Store.Data.{DataLaws}
use mirdb.DataManager.{Parts, DataManager, get, insert, remove}
use mirdb.DataManager.View.{PartLaws, view, IsOpen, get-view}
use mirdb.DataManager.Changes.{insert-Changed, remove-Changed}

-- The manager as the store sees it. The text of `info` and the major compaction are given.
abbrev pub manager_ops :
    (parts : Parts) → (DataManager parts → Slice) → Action (DataManager parts) (Unit {0}) → DataOps
manager_ops parts info major_compaction = record {
  State = DataManager parts;
  get = get parts;
  insert = insert parts;
  remove = remove parts;
  info = info;
  major_compaction = major_compaction;
}

pub manager_laws :
    (parts : Parts) (laws : PartLaws parts) (info : DataManager parts → Slice)
    (major_compaction : Action (DataManager parts) (Unit {0}))
    → DataLaws (manager_ops parts info major_compaction)
unfolding get
manager_laws parts laws info major_compaction = record {
  IsOpen = IsOpen parts laws;
  view = view parts laws;
  get_same = λ k s. refl;
  get_view = λ k s r o e. (get-view parts laws s k r o e).0;
  insert_view = λ k v s r o e. insert-Changed parts laws k v s r o e;
  remove_view = λ k s r o e. let (a, c) = remove-Changed parts laws k s r o e in (c.0, a, c.1);
}
