-- ===== src/Streamer/Rows/Columns.antt =====
-- The columns of a row in `recordToProto` of internal/streamer/streamer.go.
use Prim.Native.String.{String}
use vantage.Prelude.{Bool, ℕ, ◌≡◌, refl, [], ◌∷◌, Option, none, some, ok, load-ok}
use vantage.Streamer.Rows.{record_to_proto, row_message}

module _ (parse_float : String → Option ℕ) where
  -- A record of twelve columns, whose value is a number, becomes the message of its columns: the
  -- file's timestamp is replaced by the stamp, the other texts keep their places, and the broker's
  -- fields are 0.
  pub row_message-columns :
      (cut : Bool)
      (stamp time metric gpu device uuid model host container pod namespace value labels : String)
      (n : ℕ)
      → parse_float value ≡ some n
      → row_message parse_float (record {
        stamp = stamp;
        cut = cut;
        fields = some (
            time ∷ metric ∷ gpu ∷ device ∷ uuid ∷ model ∷ host ∷ container ∷ pod ∷ namespace ∷ value
            ∷ labels ∷ []);
      })
        ≡ ok (
            some (record {
              timestamp = stamp;
              metric_name = metric;
              gpu_id = gpu;
              device = device;
              uuid = uuid;
              model_name = model;
              hostname = host;
              container = container;
              pod = pod;
              namespace = namespace;
              value = n;
              labels_raw = labels;
              id = 0;
              delivery_attempts = 0;
            }))
  unfolding row_message record_to_proto
  row_message-columns cut stamp time metric gpu device uuid model host container pod namespace value
        labels n number =
      let row =
        time ∷ metric ∷ gpu ∷ device ∷ uuid ∷ model ∷ host ∷ container ∷ pod ∷ namespace ∷ value
        ∷ labels ∷ [] in
      simp
        (
          load-ok row 10 refl,
          load-ok row 1 refl,
          load-ok row 2 refl,
          load-ok row 3 refl,
          load-ok row 4 refl,
          load-ok row 5 refl,
          load-ok row 6 refl,
          load-ok row 7 refl,
          load-ok row 8 refl,
          load-ok row 9 refl,
          load-ok row 11 refl,
          number,
        )
        refl

  -- A row that the reader reports as malformed is skipped.
  pub row_message_malformed :
      (cut : Bool) (stamp : String)
      → row_message parse_float (record { stamp = stamp; fields = none; cut = cut }) ≡ ok none
  unfolding row_message
  row_message_malformed cut stamp = refl
