-- ===== src/Extraction/Tests.antt =====
-- Data of the shop's orders, and a table that its driver does not know.
use datarecon_ai_community_e.Prelude.{◌≡◌, refl, ok}
use datarecon_ai_community_e.PyText.{text, text_eq}
use datarecon_ai_community_e.Domain.Databases.{
  member_of, role_value, database_value, environment_value,
}
use datarecon_ai_community_e.Connections.Store.{
  entity_to_params, get_by_id, first_row, row_to_entity, entity_of,
}
use datarecon_ai_community_e.Connections.Service.{decrypt}
use datarecon_ai_community_e.Extraction.{extract_dataframe}
use datarecon_ai_community_e.Extraction.Laws.{IsExtraction, extract_dataframe_lem}
use datarecon_ai_community_e.Extraction.Examples.{
  outside_world, shop_driver, shop_table, describe_error,
}

orders_extracted :
    (extract_dataframe outside_world shop_driver describe_error
      (text "s")
      (text "orders")
      shop_table).0
    ≡ ok (text "geheim")
unfolding extract_dataframe get_by_id first_row row_to_entity entity_of member_of role_value
    database_value environment_value decrypt text_eq entity_to_params
orders_extracted = refl

extract_dataframe_lem_example :
    IsExtraction outside_world shop_driver describe_error
      (text "s")
      (text "orders")
      shop_table
      (extract_dataframe outside_world shop_driver describe_error
        (text "s")
        (text "orders")
        shop_table).0
      (extract_dataframe outside_world shop_driver describe_error
        (text "s")
        (text "orders")
        shop_table).1
extract_dataframe_lem_example =
    extract_dataframe_lem outside_world shop_driver describe_error (text "s") (text "orders")
      shop_table
