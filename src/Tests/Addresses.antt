-- ===== src/Tests/Addresses.antt =====
-- Runs of what is proved of the address and of the page.
use shabdiz.Prelude.{List, ◌≡◌, refl, true, [], ◌∷◌, Option, some, if◌then◌else◌, arith}
use shabdiz.Prelude.Int.{pos}
use shabdiz.Prelude.Result.{ok, err, type_error}
use shabdiz.Text.{Text, codes, Lacks, split, trim}
use shabdiz.Text.Number.{Number, scan, int, nan, show, parse_int, strict_eq}
use shabdiz.Text.Number.Laws.{parse_int-show}
use shabdiz.Query.{decode_array, encode_array, Query, initial, churn, encode, decode}
use shabdiz.Query.RoundTrip.{decode_array-encode_array, IsEncodable, decode-encode}
use shabdiz.Query.Reload.{IsSound, IsUnsigned, IsExactQuery, decode-encode-decode}
use shabdiz.Query.Matches.{matches}
use shabdiz.Query.Matches.Reference.{reference, fails, matches-reference}
use shabdiz.Page.{Page}
use shabdiz.Page.Updates.{address}
use shabdiz.Page.Sound.{filter_check, data_type_change, handle, Reach, here, next, decode-address}
use shabdiz.Util.Arrays.{remove_if_exists}
use shabdiz.Tests.Hosts.{first_of_all, host, page, scenarios}

-- Selections of several indices, among them the one of a box whose value is no number.
abbrev chosen : Query
chosen = record initial {
  metric = int (pos 3);
  churn = int (pos 0) ∷ int (pos 12) ∷ [];
  workload = nan ∷ [];
}

chosen-IsEncodable : IsEncodable chosen
chosen-IsEncodable = record {
  metric = omega arith;
  churn = ((tt, omega arith), ((tt, omega arith), tt));
  workload = ((tt, tt), tt);
  peer_configuration = tt;
  experiment_duration = tt;
  training_duration = tt;
  clustering_algorithm = tt;
  feedback_enabled = tt;
}

overall-Lacks : Lacks b'_' (codes "overall")
overall-Lacks = (
  omega arith,
  (omega arith, (omega arith, (omega arith, (omega arith, (omega arith, (omega arith, tt)))))),
)

decode-encode_example :
    decode (some (encode chosen (codes "overall"))) (initial, codes "overtime")
    ≡ (chosen, codes "overall")
decode-encode_example =
    decode-encode chosen (codes "overall") (initial, codes "overtime") chosen-IsEncodable
      overall-Lacks

initial-IsEncodable : IsEncodable initial
initial-IsEncodable = record {
  metric = omega arith;
  churn = tt;
  workload = tt;
  peer_configuration = tt;
  experiment_duration = tt;
  training_duration = tt;
  clustering_algorithm = tt;
  feedback_enabled = tt;
}

initial-IsUnsigned : IsUnsigned (initial, codes "overall")
initial-IsUnsigned = record {
  query = record {
    metric = tt;
    churn = tt;
    workload = tt;
    peer_configuration = tt;
    experiment_duration = tt;
    training_duration = tt;
    clustering_algorithm = tt;
    feedback_enabled = tt;
  };
  data_type = overall-Lacks;
}

-- A malformed address.
abbrev malformed : Option Text
malformed = some (codes "x_1-y-2_3_")

-- What the page reads from it.
abbrev read_malformed : Query
read_malformed = record initial {
  metric = nan;
  churn = int (pos 1) ∷ nan ∷ int (pos 2) ∷ [];
  workload = int (pos 3) ∷ [];
}

decode-malformed : (decode malformed (initial, codes "overall")).0 ≡ read_malformed
unfolding decode decode_array parse_int scan split trim
decode-malformed = refl

read_malformed-IsExact : IsExactQuery read_malformed
read_malformed-IsExact = record {
  metric = tt;
  churn = (omega arith, (tt, (omega arith, tt)));
  workload = (omega arith, tt);
  peer_configuration = tt;
  experiment_duration = tt;
  training_duration = tt;
  clustering_algorithm = tt;
  feedback_enabled = tt;
}

decode-encode-decode_example :
    decode
      (some (
        encode
          (decode malformed (initial, codes "overall")).0
          (decode malformed (initial, codes "overall")).1))
      (chosen, codes "overtime")
    ≡ decode malformed (initial, codes "overall")
decode-encode-decode_example =
    decode-encode-decode malformed (initial, codes "overall") (chosen, codes "overtime")
      initial-IsUnsigned (rw decode-malformed read_malformed-IsExact)

parse_int-show_example : parse_int (show (int (pos 407))) ≡ int (pos 407)
parse_int-show_example = parse_int-show (int (pos 407)) (omega arith)

matches-reference_example : matches first_of_all scenarios ≡ (
    if fails first_of_all scenarios then err type_error else ok (reference first_of_all scenarios))
matches-reference_example = matches-reference first_of_all scenarios

overtime-Lacks : Lacks b'_' (codes "overtime")
overtime-Lacks = (
  omega arith,
  (
    omega arith,
    (omega arith, (omega arith, (omega arith, (omega arith, (omega arith, (omega arith, tt)))))),
  ),
)

page-IsSound : IsSound (initial, codes "overtime")
page-IsSound = record { query = initial-IsEncodable; data_type = overtime-Lacks }

-- The page after another kind of data was chosen.
abbrev changed : Page
changed = (handle host (data_type_change (codes "overall")) page).0

changed-Reach : Reach host page changed
changed-Reach = next here (data_type_change (codes "overall")) overall-Lacks refl

decode-address_example :
    decode
      (address (handle host (filter_check true (int (pos 1)) churn) changed).0.effects)
      (chosen, codes "btraining")
    ≡ (
      (handle host (filter_check true (int (pos 1)) churn) changed).0.query,
      (handle host (filter_check true (int (pos 1)) churn) changed).0.data_type,
    )
decode-address_example =
    decode-address host (filter_check true (int (pos 1)) churn) (chosen, codes "btraining")
      page-IsSound changed-Reach (tt, omega arith)

-- An index that an address repeats is still selected when its box is unchecked.
abbrev twice : List Number
twice = int (pos 1) ∷ int (pos 1) ∷ []

repeated :
    (remove_if_exists strict_eq (int (pos 1)) (decode_array (encode_array twice))).0
    ≡ int (pos 1) ∷ []
unfolding remove_if_exists
repeated = rw (decode_array-encode_array twice ((tt, omega arith), ((tt, omega arith), tt))) refl
