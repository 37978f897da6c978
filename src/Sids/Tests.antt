-- ===== src/Sids/Tests.antt =====
-- The table of elements at one of its lines.
use maia.Base.{◌≡◌, ◌↔◌, refl, some, text}
use maia.Base.Result.{ok}
use maia.Sids.Elements.{element_name, cgns_name_to_id, element_number_of_nodes, elements_properties}
use maia.Sids.ElementLaws.{element_name-cgns_name_to_id}

nodes_run : element_number_of_nodes 17 ≡ ok (some 8)
unfolding element_number_of_nodes elements_properties
nodes_run = refl

element_name-cgns_name_to_id_example :
    (element_name 17 ≡ ok (text "HEXA_8")) ↔ (cgns_name_to_id (text "HEXA_8") ≡ ok 17)
element_name-cgns_name_to_id_example = element_name-cgns_name_to_id 17 (text "HEXA_8")
