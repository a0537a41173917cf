-- ===== src/Wire/Interest/RoundTrip.antt =====
-- interest.go: the options byte keeps its eight flags, and an INTEREST is read back.
use zenoh_go_client.Prelude.{
  ℕ, zero, suc, [], ◌∷◌, length, ◌^◌, ◌<◌, ◌≡◌, refl, Bool, true, false, not, ◌&&◌, List, All,
  Option, none, some, arith, if◌then◌else◌,
}
use zenoh_go_client.Prelude.Bits.{all_below, table}
use zenoh_go_client.Codec.Types.{◌>>◌, optional}
use zenoh_go_client.Codec.Carries.{
  Carries, Carries->>, Carries-last, Carries-optional, Carries-skip,
}
use zenoh_go_client.Codec.Buffer.{append_byte}
use zenoh_go_client.Codec.Vle.RoundTrip.{encode_z32-Carries}
use zenoh_go_client.Codec.Primitives.Laws.{append_byte-Carries}
use zenoh_go_client.Codec.Header.{or_if, has_bit}
use zenoh_go_client.Codec.Header.Laws.{encode_header-Carries}
use zenoh_go_client.Codec.Ext.{set_more}
use zenoh_go_client.Codec.Ext.HeaderByte.{IsExt}
use zenoh_go_client.Codec.Ext.Chain.{extensions-Carries}
use zenoh_go_client.Wire.Fields.{when_some, optional_some, OnSome}
use zenoh_go_client.Wire.Frame.{after_header}
use zenoh_go_client.Wire.Values.{WireExpr, named, encode_scope, IsWireExpr, encode_scope-Carries}
use zenoh_go_client.Wire.Interest.{
  InterestFilter, Interest, no_filter, filter_opts, restricted_opts, interest_opts, filter_of,
  is_open_mode, encode_interest, decode_interest, decode_interest_options,
}

-- A test that holds on all lists of so many flags, found by running it.
unfoldable every : ℕ → (List Bool → Bool) → Bool
every zero p = p []
every (suc n) p = every n (λ l. p (true ∷ l)) && every n (λ l. p (false ∷ l))

every-at : (l : List Bool) (p : List Bool → Bool) → every (length l) p ≡ true → p l ≡ true
unfolding every
every-at [] p h = h
every-at (true ∷ l) p h = every-at l (λ l'. p (true ∷ l')) (ground arith)
every-at (false ∷ l) p h = every-at l (λ l'. p (false ∷ l')) (ground arith)

abbrev agree : Bool → Bool → Bool
agree true b = b
agree false b = not b

agree→eq : (a b : Bool) → agree a b ≡ true → a ≡ b
agree→eq true true h = refl
agree→eq true false h = cc
agree→eq false true h = cc
agree→eq false false h = refl

-- The byte of all eight flags.
abbrev opts_of : InterestFilter → Bool → Bool → Bool → ℕ
opts_of f r n m = restricted_opts r n m (filter_opts f)

abbrev Flag : Type 0
Flag = InterestFilter → Bool → Bool → Bool → Bool

abbrev flag_test : ℕ → Flag → List Bool → Bool
flag_test bit want (a ∷ b ∷ c ∷ d ∷ e ∷ r ∷ n ∷ m ∷ []) =
    let f : InterestFilter = record {
      key_exprs = a;
      subscribers = b;
      queryables = c;
      tokens = d;
      aggregate = e;
    } in
    agree (has_bit (opts_of f r n m) bit) (want f r n m)
flag_test bit want l = true

flag :
    (bit : ℕ) (want : Flag)
    → every 8 (flag_test bit want) ≡ true
    → (f : InterestFilter) (r n m : Bool) → has_bit (opts_of f r n m) bit ≡ want f r n m
flag bit want h f r n m =
    let flags =
      f.key_exprs ∷ f.subscribers ∷ f.queryables ∷ f.tokens ∷ f.aggregate ∷ r ∷ n ∷ m ∷ [] in
    agree→eq _ _ (every-at flags (flag_test bit want) h)

restricted_flag : (f : InterestFilter) (r n m : Bool) → has_bit (opts_of f r n m) 16 ≡ r
unfolding every
restricted_flag = flag 16 (λ f r n m. r) refl

named_flag : (f : InterestFilter) (r n m : Bool) → has_bit (opts_of f r n m) 32 ≡ (r && n)
unfolding every
named_flag = flag 32 (λ f r n m. r && n) refl

mapping_flag : (f : InterestFilter) (r n m : Bool) → has_bit (opts_of f r n m) 64 ≡ (r && m)
unfolding every
mapping_flag = flag 64 (λ f r n m. r && m) refl

filter_flags : (f : InterestFilter) (r n m : Bool) → filter_of (opts_of f r n m) ≡ f
unfolding every filter_of
filter_flags f r n m =
    rw
      (
        flag 1 (λ f r n m. f.key_exprs) refl f r n m,
        flag 2 (λ f r n m. f.subscribers) refl f r n m,
        flag 4 (λ f r n m. f.queryables) refl f r n m,
        flag 8 (λ f r n m. f.tokens) refl f r n m,
        flag 128 (λ f r n m. f.aggregate) refl f r n m,
      )
      refl

options-Carries :
    (f : InterestFilter) (o : Option WireExpr)
    → OnSome IsWireExpr o
    → Carries
        (append_byte (interest_opts f o) >> when_some o encode_scope)
        decode_interest_options
        (f, o)
unfolding decode_interest_options interest_opts when_some optional_some optional
options-Carries f none k = Carries->> _ (append_byte-Carries _) (
    rw (restricted_flag f false false false, filter_flags f false false false)
      (Carries-last _ (Carries-skip none)))
options-Carries f (some ke) k = Carries->> _ (append_byte-Carries _) (
    rw
      (
        restricted_flag f true (named ke) ke.mapping,
        named_flag f true (named ke) ke.mapping,
        mapping_flag f true (named ke) ke.mapping,
        filter_flags f true (named ke) ke.mapping,
      )
      (Carries-last _ (Carries-last some (encode_scope-Carries ke k))))

mode_flags : (mode : ℕ) → mode < 4 → or_if (has_bit mode 2) 2 (or_if (has_bit mode 1) 1 0) ≡ mode
unfolding all_below
mode_flags = table 4 _ _ refl

-- A final INTEREST carries neither filter nor key expression.
abbrev pub arrived_options : Interest → InterestFilter × Option WireExpr
arrived_options m = if is_open_mode m.mode then (m.filter, m.key_expr) else (no_filter, none)

-- Every INTEREST whose parts fit the wire is read back: the mode off the two header flags, and
-- where the mode is not final the filter and the key expression off the options byte.
pub encode_interest-Carries :
    (m : Interest)
    → m.mode < 4
    → m.interest_id < 2 ^ 32
    → OnSome IsWireExpr m.key_expr
    → All IsExt m.extensions
    → Carries (encode_interest m) (after_header decode_interest) (record m {
      filter = (arrived_options m).0;
      key_expr = (arrived_options m).1;
      extensions = set_more m.extensions;
    })
unfolding encode_interest decode_interest
encode_interest-Carries m hm hid k hs = Carries->> _ (encode_header-Carries _ (omega arith)) (
    rw (mode_flags m.mode hm) (
      Carries->> _ (encode_z32-Carries m.interest_id hid) (
        Carries->> _
          (Carries-optional (is_open_mode m.mode) {v = arrived_options m}
            (λ on. rw (on) (options-Carries m.filter m.key_expr k)) (λ off. rw (off) refl))
          (Carries-last _ (extensions-Carries m.extensions hs)))))
