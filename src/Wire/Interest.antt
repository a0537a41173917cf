-- ===== src/Wire/Interest.antt =====
-- internal/wire/interest.go: INTEREST.
pub mod RoundTrip
use zenoh_go_client.Prelude.{
  ℕ, ◌^◌, ◌<◌, ◌≡◌, ◌≢◌, refl, sym, Bool, true, false, not, List, [], All, Option, none, some,
  arith, ◌==◌, bit_and, bit_or, if◌then◌else◌, ap, ◌∙◌,
}
use zenoh_go_client.Codec.Types.{Parser, ◌>>=◌, pure, Encoder, ◌>>◌, when, optional, skip}
use zenoh_go_client.Codec.Carries.{Carries, Carries->>, Carries-last, Carries-skip}
use zenoh_go_client.Codec.Buffer.{read_byte, append_byte}
use zenoh_go_client.Codec.Vle.{encode_z32, decode_z32}
use zenoh_go_client.Codec.Vle.RoundTrip.{encode_z32-Carries}
use zenoh_go_client.Codec.Primitives.Laws.{append_byte-Carries}
use zenoh_go_client.Codec.Header.{Header, encode_header, or_if, has_bit}
use zenoh_go_client.Codec.Header.Laws.{encode_header-Carries}
use zenoh_go_client.Codec.Ext.{Extension, encode_extensions, decode_extensions, set_more, non_empty}
use zenoh_go_client.Codec.Ext.HeaderByte.{IsExt}
use zenoh_go_client.Codec.Ext.Chain.{extensions-Carries}
use zenoh_go_client.Wire.Ids.{id_network_interest}
use zenoh_go_client.Wire.Fields.{is_some, when_some, optional_some, OnSome}
use zenoh_go_client.Wire.Frame.{expect_id, after_header}
use zenoh_go_client.Wire.Values.{
  WireExpr, named, encode_scope, decode_wire_expr, IsWireExpr, encode_scope-Carries,
}

abbrev pub interest_mode_final : ℕ
interest_mode_final = 0

pub record InterestFilter : Type 0 where
  pub key_exprs : Bool
  pub subscribers : Bool
  pub queryables : Bool
  pub tokens : Bool
  pub aggregate : Bool

abbrev pub no_filter : InterestFilter
no_filter = record {
  key_exprs = false;
  subscribers = false;
  queryables = false;
  tokens = false;
  aggregate = false;
}

abbrev pub interest_opt_key_exprs : ℕ
interest_opt_key_exprs = 2 ^ 0

abbrev pub interest_opt_subs : ℕ
interest_opt_subs = 2 ^ 1

abbrev pub interest_opt_queryables : ℕ
interest_opt_queryables = 2 ^ 2

abbrev pub interest_opt_tokens : ℕ
interest_opt_tokens = 2 ^ 3

abbrev pub interest_opt_restricted : ℕ
interest_opt_restricted = 2 ^ 4

abbrev pub interest_opt_named : ℕ
interest_opt_named = 2 ^ 5

abbrev pub interest_opt_mapping : ℕ
interest_opt_mapping = 2 ^ 6

abbrev pub interest_opt_aggregate : ℕ
interest_opt_aggregate = 2 ^ 7

pub record Interest : Type 0 where
  pub interest_id : ℕ
  pub mode : ℕ
  pub filter : InterestFilter
  pub key_expr : Option WireExpr
  pub extensions : List Extension

-- The flags of the filter, then those of the key expression.
abbrev pub filter_opts : InterestFilter → ℕ
filter_opts f = or_if f.aggregate interest_opt_aggregate (
    or_if f.tokens interest_opt_tokens (
      or_if f.queryables interest_opt_queryables
        (or_if f.subscribers interest_opt_subs (or_if f.key_exprs interest_opt_key_exprs 0))))

abbrev pub restricted_opts : Bool → Bool → Bool → ℕ → ℕ
restricted_opts restricted is_named mapping opts =
    if restricted
    then or_if mapping interest_opt_mapping
        (or_if is_named interest_opt_named (bit_or opts interest_opt_restricted))
    else opts

abbrev pub is_named : Option WireExpr → Bool
is_named none = false
is_named (some ke) = named ke

abbrev pub is_mapping : Option WireExpr → Bool
is_mapping none = false
is_mapping (some ke) = ke.mapping

unfoldable pub interest_opts : InterestFilter → Option WireExpr → ℕ
interest_opts f o = restricted_opts (is_some o) (is_named o) (is_mapping o) (filter_opts f)

unfoldable pub filter_of : ℕ → InterestFilter
filter_of opts = record {
  key_exprs = has_bit opts interest_opt_key_exprs;
  subscribers = has_bit opts interest_opt_subs;
  queryables = has_bit opts interest_opt_queryables;
  tokens = has_bit opts interest_opt_tokens;
  aggregate = has_bit opts interest_opt_aggregate;
}

abbrev pub is_open_mode : ℕ → Bool
is_open_mode mode = not (mode == interest_mode_final)

unfoldable pub encode_interest : Interest → Encoder
encode_interest m =
    let z = non_empty m.extensions in
    encode_header
      (record { id = id_network_interest; f1 = has_bit m.mode 1; f2 = has_bit m.mode 2; z = z })
    >> (encode_z32 m.interest_id
        >> (when (is_open_mode m.mode)
              (append_byte (interest_opts m.filter m.key_expr) >> when_some m.key_expr encode_scope)
            >> when z (encode_extensions m.extensions)))

-- The options byte, and the key expression under its `R`, `N` and `M` flags.
unfoldable pub decode_interest_options : Parser (InterestFilter × Option WireExpr)
decode_interest_options = do
  opts ← read_byte
  key ←
      optional_some (has_bit opts interest_opt_restricted)
        (decode_wire_expr (has_bit opts interest_opt_named) (has_bit opts interest_opt_mapping))
  pure (filter_of opts, key)

unfoldable pub decode_interest : Header → Parser Interest
decode_interest h = expect_id id_network_interest h do
  let mode = or_if h.f2 2 (or_if h.f1 1 0)
  id ← decode_z32
  options ← optional (is_open_mode mode) (no_filter, none) decode_interest_options
  exts ← optional h.z [] decode_extensions
  pure (record {
    interest_id = id;
    mode = mode;
    filter = options.0;
    key_expr = options.1;
    extensions = exts;
  })
