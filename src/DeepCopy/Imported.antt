-- ===== src/DeepCopy/Imported.antt =====
-- What the deep copies use of apimachinery: `DeepCopyInto` of its structs, and what they stand for.
use llm_inference_operator.Base.{Option}
use llm_inference_operator.DeepCopy.Heap.{Read, Copy, IsCopy}
use llm_inference_operator.DeepCopy.Layout.{Form, Imports, Cell}

pub record Imported (I : Imports) : Type 1 where
  pub ObjectMeta : Type 0
  pub ListMeta : Type 0
  pub Condition : Type 0
  pub Time : Type 0
  pub read_object_meta : Read (Cell I) I.ObjectMeta ObjectMeta
  pub read_list_meta : Read (Cell I) I.ListMeta ListMeta
  pub read_condition : Read (Cell I) I.Condition Condition
  pub read_time : Read (Cell I) I.Time Time
  -- `ObjectMeta.DeepCopyInto`, `ListMeta.DeepCopyInto`, `Condition.DeepCopyInto`, `Time.DeepCopyInto`
  pub copy_object_meta : Copy (Cell I) I.ObjectMeta
  pub copy_list_meta : Copy (Cell I) I.ListMeta
  pub copy_condition : Copy (Cell I) I.Condition
  pub copy_time : Copy (Cell I) I.Time

-- Values: what a pointer, a slice or a map leads to, or nil.
abbrev pub values : {I : Imports} → Imported I → Form
values {I} L = record {
  To = Option;
  TypeMeta = I.TypeMeta;
  ObjectMeta = L.ObjectMeta;
  ListMeta = L.ListMeta;
  Condition = L.Condition;
  Time = L.Time;
}

-- The documentation of apimachinery: each of them copies the receiver deeply.
pub record IsImported {I : Imports} (L : Imported I) : Type 0 where
  pub object_meta : IsCopy L.read_object_meta L.copy_object_meta
  pub list_meta : IsCopy L.read_list_meta L.copy_list_meta
  pub condition : IsCopy L.read_condition L.copy_condition
  pub time : IsCopy L.read_time L.copy_time
