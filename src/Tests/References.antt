-- ===== src/Tests/References.antt =====
-- The theorems about what else is made of references, applied.
use open62541_nodeset_export.Prelude.{
  List, Text, [], arith, codes, false, map, refl, some, true, ℕ, ◌+◌, ◌∷◌, ◌≡◌, ◌⊎◌,
}
use open62541_nodeset_export.Interfaces.{NodeReferencesRequestResponse}
use open62541_nodeset_export.Loop.Aliases.{
  Aliases, add_alias, add_data_type, add_reference_types, data_type_step, find_alias, get_aliases,
  node_aliases,
}
use open62541_nodeset_export.Loop.Aliases.Names.{Grows, IsSkipped, NamesAll, node_aliases-names}
use open62541_nodeset_export.Loop.ExportNodes.{
  add_node, after_call, count_node, export_node, export_nodes,
}
use open62541_nodeset_export.Loop.ExportNodes.Counts.{
  Accepted, export_nodes-Accepted, exported_count,
}
use open62541_nodeset_export.Loop.Exporter.{Exporter, get_summ, no_exported_nodes}
use open62541_nodeset_export.Loop.KepServer.{kep_server_ref_fix, scan_references}
use open62541_nodeset_export.Loop.KepServer.Reverse.{
  AllMended, AnyHopeless, kep_server_ref_fix-cases,
}
use open62541_nodeset_export.Loop.KepServer.Types.{
  abstract_count, made_concrete, scan_references-concrete,
}
use open62541_nodeset_export.Model.{
  NodeIntermediateModel, alias_of_attribute, alias_of_value, data_type_text, get_data_type_alias,
  get_node_reference_type_aliases, reference_type_text,
}
use open62541_nodeset_export.Samples.{sample_laws, sample_ua}
use open62541_nodeset_export.Samples.Server.{
  id_of, link, plain_options, sample_encoder, sample_exporter,
}
use open62541_nodeset_export.Status.{Status, fails, of_status, ok}
use open62541_nodeset_export.Texts.{compare_text}
use open62541_nodeset_export.Ua.{
  Identifier, NodeClass, ReferenceDescription, node_id_value, ns0_expanded, ns0_node_id, numeric,
  scalar,
}

-- A node without a reverse reference, whose type is abstract.
abbrev kep_references : List ReferenceDescription
kep_references = link 40 true (ns0_expanded 62) ∷ link 47 true (id_of 3) ∷ []

abbrev kep_node : Identifier → NodeReferencesRequestResponse
kep_node identifier = record {
  exp_node_id = record {
    node_id = record { namespace_index = 2; identifier = identifier };
    namespace_uri = [];
    server_index = 0;
  };
  references = kep_references;
}

abbrev kep_nodes : List NodeReferencesRequestResponse
kep_nodes = kep_node (Identifier.string (codes "Channel.Device")) ∷ kep_node (numeric 4) ∷ []

kep_server_ref_fix-cases_example :
    ((nodes : List NodeReferencesRequestResponse) × (kep_server_ref_fix sample_ua kep_nodes
        ≡ ok nodes)
      × AllMended sample_ua kep_nodes nodes
      × (AnyHopeless sample_ua kep_nodes → ⊥))
    ⊎ (AnyHopeless sample_ua kep_nodes
        × (kep_server_ref_fix sample_ua kep_nodes ≡ fails (of_status Status.fail)))
kep_server_ref_fix-cases_example = kep_server_ref_fix-cases sample_ua kep_nodes

scan_references-concrete_example :
    ((scan_references sample_ua kep_references false false).0
      ≡ map (made_concrete sample_ua) kep_references)
    × (abstract_count sample_ua (scan_references sample_ua kep_references false false).0 ≡ 0)
unfolding compare_text
scan_references-concrete_example = scan_references-concrete sample_laws kep_references (omega arith)

abbrev named_node : NodeIntermediateModel
named_node = record {
  exp_node_id = id_of 2;
  parent_node_id = id_of 1;
  node_class = NodeClass.variable;
  references = link 47 false (id_of 1) ∷ link 40 true (ns0_expanded 63) ∷ [];
  attributes = (14, some (scalar (node_id_value (ns0_node_id 6)))) ∷ [];
}

abbrev named_aliases : Aliases
named_aliases =
    (codes "00X", ns0_node_id 40)
    ∷ (codes "HasComponent", ns0_node_id 47)
    ∷ (codes "Int32", ns0_node_id 6)
    ∷ []

named_run : node_aliases sample_ua named_node [] ≡ ok named_aliases
unfolding compare_text data_type_text alias_of_value alias_of_attribute get_data_type_alias
    reference_type_text get_node_reference_type_aliases find_alias add_alias add_data_type
    data_type_step add_reference_types node_aliases get_aliases
named_run = refl

node_aliases-names_example :
    Grows [] named_aliases
    × ((IsSkipped sample_ua named_node × ([] ≡ named_aliases))
        ⊎ NamesAll sample_ua (get_node_reference_type_aliases sample_ua named_node) named_aliases)
node_aliases-names_example = node_aliases-names sample_ua named_node [] named_aliases named_run

-- What the encoder takes of two models, one of them of a class that is not exported.
abbrev two_models : List NodeIntermediateModel
two_models = named_node ∷ record named_node { node_class = NodeClass.method } ∷ []

abbrev after_two : Exporter ℕ (List Text)
after_two = (export_nodes sample_encoder two_models (sample_exporter plain_options 0)).1

two_run :
    export_nodes sample_encoder two_models (sample_exporter plain_options 0) ≡ (ok tt, after_two)
unfolding add_node count_node after_call export_node export_nodes
two_run = refl

export_nodes-Accepted_example :
    Accepted sample_encoder two_models [] after_two.encoder
    × (get_summ after_two.exported_nodes ≡ get_summ no_exported_nodes + exported_count two_models)
export_nodes-Accepted_example =
    export_nodes-Accepted sample_encoder two_models (sample_exporter plain_options 0) after_two
      two_run
