-- ===== src/Wire/Ids.antt =====
-- internal/wire/ids.go: message IDs, the low five bits of a header byte.
use zenoh_go_client.Prelude.{ℕ, Bool, ◌&&◌, leb}

abbrev pub id_transport_oam : ℕ
id_transport_oam = 0x00

abbrev pub id_transport_init : ℕ
id_transport_init = 0x01

abbrev pub id_transport_open : ℕ
id_transport_open = 0x02

abbrev pub id_transport_close : ℕ
id_transport_close = 0x03

abbrev pub id_transport_keep_alive : ℕ
id_transport_keep_alive = 0x04

abbrev pub id_transport_frame : ℕ
id_transport_frame = 0x05

abbrev pub id_transport_fragment : ℕ
id_transport_fragment = 0x06

abbrev pub id_transport_join : ℕ
id_transport_join = 0x07

abbrev pub id_network_interest : ℕ
id_network_interest = 0x19

abbrev pub id_network_response_final : ℕ
id_network_response_final = 0x1A

abbrev pub id_network_response : ℕ
id_network_response = 0x1B

abbrev pub id_network_request : ℕ
id_network_request = 0x1C

abbrev pub id_network_push : ℕ
id_network_push = 0x1D

abbrev pub id_network_declare : ℕ
id_network_declare = 0x1E

abbrev pub id_network_oam : ℕ
id_network_oam = 0x1F

abbrev pub id_declare_key_expr : ℕ
id_declare_key_expr = 0x00

abbrev pub id_undeclare_key_expr : ℕ
id_undeclare_key_expr = 0x01

abbrev pub id_declare_subscriber : ℕ
id_declare_subscriber = 0x02

abbrev pub id_undeclare_subscriber : ℕ
id_undeclare_subscriber = 0x03

abbrev pub id_declare_queryable : ℕ
id_declare_queryable = 0x04

abbrev pub id_undeclare_queryable : ℕ
id_undeclare_queryable = 0x05

abbrev pub id_declare_token : ℕ
id_declare_token = 0x06

abbrev pub id_undeclare_token : ℕ
id_undeclare_token = 0x07

abbrev pub id_declare_final : ℕ
id_declare_final = 0x1A

abbrev pub id_data_put : ℕ
id_data_put = 0x01

abbrev pub id_data_del : ℕ
id_data_del = 0x02

abbrev pub id_data_query : ℕ
id_data_query = 0x03

abbrev pub id_data_reply : ℕ
id_data_reply = 0x04

abbrev pub id_data_err : ℕ
id_data_err = 0x05

abbrev pub id_scout_scout : ℕ
id_scout_scout = 0x01

abbrev pub id_scout_hello : ℕ
id_scout_hello = 0x02

unfoldable pub is_network_message_id : ℕ → Bool
is_network_message_id id = leb id_network_interest id && leb id id_network_oam
