-- ===== src/Robin/Merge.antt =====
-- redkey_robin.go: derefMap, mergeMeta, and the labels of the managed objects.
pub mod Precedence
use redkey_operator.Common.{String, Option, none, some, List, [], ◌∷◌, if◌then◌else◌, ◌<>◌}
use redkey_operator.Common.GoMap.{GoMap, nil, made, entries, copy, is_empty}
use redkey_operator.Api.Types.{Types}
use redkey_operator.Api.Redkey.{Redkey}

-- SequenceAnnotation, ClusterLabel and the other keys that the operator writes
abbrev pub sequence_annotation : String
sequence_annotation = "redkey.inditex.dev/config-sequence"

abbrev pub cluster_label : String
cluster_label = "redkey.inditex.dev/cluster"

abbrev pub component_label : String
component_label = "redkey.inditex.dev/component"

unfoldable pub deref_map : Option (GoMap String) → GoMap String
deref_map none = nil
deref_map (some m) = m

unfoldable pub merge_meta : GoMap String → GoMap String → GoMap String → GoMap String
unfolding copy
merge_meta spec override base =
    let out =
      copy
        (if is_empty (entries override) then copy [] (entries spec) else copy [] (entries override))
        (entries base) in
    if is_empty out then nil else made out

module _ {T : Types} where
  -- `fmt.Sprintf("%s-robin", cluster.Name)`
  unfoldable pub robin_name : Redkey T → String
  robin_name cluster = cluster.meta.name <> "-robin"

  -- The internal labels of everything that belongs to Robin.
  unfoldable pub base_labels : Redkey T → GoMap String
  base_labels cluster = made ((cluster_label, cluster.meta.name) ∷ (component_label, "robin") ∷ [])
