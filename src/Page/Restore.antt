-- ===== src/Page/Restore.antt =====
-- Opening the page at an address that an earlier page has left.
use shabdiz.Prelude.{◌≡◌, ◌∙◌, ap, some}
use shabdiz.Text.{Text, Lacks}
use shabdiz.Value.{Host}
use shabdiz.Query.{Query, encode}
use shabdiz.Query.Matches.{Scenario}
use shabdiz.Query.RoundTrip.{IsEncodable, decode-encode}
use shabdiz.Page.{Page, init, ◌>>=◌}
use shabdiz.Page.Updates.{address, address-update}

-- Opened at the encoding of a query and a kind of data, any page comes to hold them, and its
-- address to be that encoding, whether or not the drawing throws, if the metric is `NaN` or a
-- whole number below 2 ^ 53 in size, the selections hold `NaN` and whole numbers from 0 to below 2
-- ^ 53 only, and the kind of data has no underscore.
pub init-encode :
    (h : Host Scenario) (q : Query) (data_type : Text) (p : Page)
    → IsEncodable q
    → Lacks b'_' data_type
    → ((init h (encode q data_type) p).0.query ≡ q)
      × ((init h (encode q data_type) p).0.data_type ≡ data_type)
      × (address (init h (encode q data_type) p).0.effects ≡ some (encode q data_type))
unfolding init ◌>>=◌
init-encode h q data_type p v l =
    let e = decode-encode q data_type (p.query, p.data_type) v l in
    let (a, b, c) = address-update h _ in
    (a ∙ ap (λ st. st.0) e, b ∙ ap (λ st. st.1) e, c ∙ ap (λ st. some (encode st.0 st.1)) e)
