-- ===== src/Page/Leaf/Typed.antt =====
-- The methods of crates/storage/src/page/leaf.rs that encode and decode: `get_key`, `get_value`,
-- `entry`, `high_key`, `insert` and `push_with_mvcc`. A decoder that panics gives none.
use flux_db.Common.{ℕ, Option, none, some}
use flux_db.Values.Value.{Value}
use flux_db.Values.Keys.{Key}
use flux_db.Page.Bytes.{Page}
use flux_db.Page.Overflow.{Result}
use flux_db.Page.Leaf.{Accessor, key_bytes_at, value_bytes_at, high_key_bytes, rec_type_inline}
use flux_db.Page.Leaf.Mutate.{insert_raw}
use flux_db.Page.Leaf.Build.{Builder, push_with_mvcc_raw}

module _ {ℓ} {K : Type ℓ} (key : Key K) where
  unfoldable pub get_key : Accessor → ℕ → Option K
  get_key acc i = key.value.from_bytes (key_bytes_at acc i)

  -- None for the rightmost leaf; the inner option is the decoder's.
  unfoldable pub high_key : Accessor → Option (Option K)
  unfolding high_key_bytes
  high_key acc = elim (high_key_bytes acc) [
    | none ↦ none
    | some bytes ↦ some (key.value.from_bytes bytes)
  ]

  module _ {V : Type ℓ} (value : Value V) where
    unfoldable pub get_value : Accessor → ℕ → Option V
    get_value acc i = value.from_bytes (value_bytes_at acc i)

    unfoldable pub entry : Accessor → ℕ → Option (K × V)
    unfolding get_key get_value
    entry acc i = elim (get_key acc i) [
      | none ↦ none
      | some k ↦ elim (get_value acc i) [ none ↦ none | some v ↦ some (k, v) ]
    ]

    unfoldable pub insert_pair : Page → ℕ → K → V → Result Page
    unfolding insert_raw
    insert_pair page pos k v =
        insert_raw page pos (key.value.as_bytes k) (value.as_bytes v) rec_type_inline

    unfoldable pub push_with_mvcc : Builder → K → V → ℕ → ℕ → Option Builder
    unfolding push_with_mvcc_raw
    push_with_mvcc builder k v xmin xmax = push_with_mvcc_raw builder (record {
      key = key.value.as_bytes k;
      val = value.as_bytes v;
      rec_type = rec_type_inline;
      xmin = xmin;
      xmax = xmax;
    })
