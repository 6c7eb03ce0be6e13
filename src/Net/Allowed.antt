-- ===== src/Net/Allowed.antt =====
-- What the checks of the network calls of wdc_net.c let through.
use pulse_esp32_host.Base.{
  ℕ, ◌≤◌, ◌<◌, ◌≡◌, inl, inr, ap, subst, true, ◌&&◌, ◌||◌, List, Option, none, some, Result, ok,
  err, guard, or_bad, or_missing, ◌>>=◌, ◌>>◌, bind_ok, guard_ok, ok_inj, and_split, leb, leb→le,
  ◌==◌, length, Text, bad_length, bad_encoding, capability_denied, arith, if_cases,
}
use pulse_esp32_host.Cbor.Find.{find_u32, find_text}
use pulse_esp32_host.Profile.Defs.{DeviceProfile, NetworkResource, find_network_by_id}
use pulse_esp32_host.Net.Defs.{
  NetOperation, topic_max, url_max, net_payload_max, key_topic, key_qos, key_method, key_url,
  copy_text, network_policy_for, or_invalid_resource, text_has_prefix, method_allowed,
  payload_len_of,
}
use pulse_esp32_host.Net.Calls.{
  publish_under, check_publish, subscribe_under, check_subscribe, http_under, check_http,
}

-- A publish on a network resource of the profile, under its prefix and within its limits.
pub record IsPublish (p : DeviceProfile) (o : NetOperation) : Type 0 where
  pub policy : NetworkResource
  pub found : find_network_by_id p o.resource_id ≡ some policy
  pub prefixed : text_has_prefix o.topic policy.mqtt_topic_prefix ≡ true
  pub payload_fits : o.payload_len ≤ policy.max_payload_bytes
  pub qos_known : o.qos ≤ 2
  pub topic_fits : length o.topic < topic_max

pub record IsSubscribe (p : DeviceProfile) (o : NetOperation) : Type 0 where
  pub policy : NetworkResource
  pub found : find_network_by_id p o.resource_id ≡ some policy
  pub prefixed : text_has_prefix o.topic policy.mqtt_subscribe_prefix ≡ true
  pub topic_fits : length o.topic < topic_max

pub record IsHttp (p : DeviceProfile) (o : NetOperation) : Type 0 where
  pub policy : NetworkResource
  pub found : find_network_by_id p o.resource_id ≡ some policy
  pub prefixed : text_has_prefix o.url policy.http_url_prefix ≡ true
  pub payload_fits : o.payload_len ≤ policy.max_payload_bytes
  pub url_fits : length o.url < url_max

pub copy_text-fits :
    (size : ℕ) (text t : Text) → copy_text size text ≡ ok t → (text ≡ t) × (length t < size)
unfolding copy_text
copy_text-fits size text t e =
    elim (if_cases (length text == 0 || leb size (length text)) (err bad_length) (ok text) (ok t)
      e) [
        | inl (_, e1) ↦ absurd (ground arith)
        | inr (fits, e1) ↦
            let same : text ≡ t = ok_inj e1 in
            (same, subst (λ (u : Text). length u < size) same (ground arith))
      ]

policy-found :
    (p : DeviceProfile) (id : ℕ) (policy : NetworkResource)
    → network_policy_for (some p) id ≡ ok policy
    → find_network_by_id p id ≡ some policy
unfolding network_policy_for
policy-found p id policy e = found_of (find_network_by_id p id) e
  where
    found_of : (o : Option NetworkResource) → or_invalid_resource o ≡ ok policy → o ≡ some policy
    found_of none e = absurd (ground arith)
    found_of (some n) e = ap some (ok_inj e)

-- What a check of a publish that goes through has found.
pub check_publish-allows :
    (p : DeviceProfile) (id : ℕ) (req : List ℕ) (topic : Text) (len qos : ℕ)
    → check_publish (some p) id req ≡ ok (topic, len, qos)
    → (policy : NetworkResource) × (find_network_by_id p id ≡ some policy)
      × (text_has_prefix topic policy.mqtt_topic_prefix ≡ true)
      × (len ≤ policy.max_payload_bytes)
      × (qos ≤ 2)
      × (length topic < topic_max)
unfolding check_publish publish_under
check_publish-allows p id req topic len qos e =
    let after_len : Text → ℕ → Result (Text × ℕ × ℕ) = λ t l.
      guard (leb l net_payload_max) bad_length
      >> (network_policy_for (some p) id >>= publish_under req t l) in
    let after_topic : Text → Result (Text × ℕ × ℕ) = λ t. payload_len_of req >>= after_len t in
    let (t, _, e1) = bind_ok (or_bad (find_text req key_topic)) after_topic (topic, len, qos) e in
    let (l, _, e2) = bind_ok (payload_len_of req) (after_len t) (topic, len, qos) e1 in
    let (_, e3) =
      guard_ok (leb l net_payload_max) bad_length
        (network_policy_for (some p) id >>= publish_under req t l) (topic, len, qos) e2 in
    let (policy, found, e4) =
      bind_ok (network_policy_for (some p) id) (publish_under req t l) (topic, len, qos) e3 in
    let copied : ℕ → Text → Result (Text × ℕ × ℕ) = λ q u. ok (u, l, q) in
    let with_qos : ℕ → Result (Text × ℕ × ℕ) =
      λ q. guard (leb q 2) bad_encoding >> (copy_text topic_max t >>= copied q) in
    let qos_read = or_missing (find_u32 req key_qos) 0 in
    let (prefixed, e5) =
      guard_ok (text_has_prefix t policy.mqtt_topic_prefix) capability_denied
        (guard (leb l policy.max_payload_bytes) bad_length >> (qos_read >>= with_qos))
        (topic, len, qos) e4 in
    let (fits, e6) =
      guard_ok (leb l policy.max_payload_bytes) bad_length (qos_read >>= with_qos) (topic, len, qos)
        e5 in
    let (q, _, e7) = bind_ok qos_read with_qos (topic, len, qos) e6 in
    let (known, e8) =
      guard_ok (leb q 2) bad_encoding (copy_text topic_max t >>= copied q) (topic, len, qos) e7 in
    let (u, copy, e9) = bind_ok (copy_text topic_max t) (copied q) (topic, len, qos) e8 in
    let (same, short) = copy_text-fits topic_max t u copy in
    subst
      (λ (k : Text × ℕ × ℕ).
        (policy : NetworkResource) × (find_network_by_id p id ≡ some policy)
        × (text_has_prefix k.0 policy.mqtt_topic_prefix ≡ true)
        × (k.1 ≤ policy.max_payload_bytes)
        × (k.2 ≤ 2)
        × (length k.0 < topic_max))
      (ok_inj e9)
      (
        policy,
        policy-found p id policy found,
        subst (λ (k : Text). text_has_prefix k policy.mqtt_topic_prefix ≡ true) same prefixed,
        leb→le l policy.max_payload_bytes fits,
        leb→le q 2 known,
        short,
      )

pub check_subscribe-allows :
    (p : DeviceProfile) (id : ℕ) (req : List ℕ) (topic : Text)
    → check_subscribe (some p) id req ≡ ok topic
    → (policy : NetworkResource) × (find_network_by_id p id ≡ some policy)
      × (text_has_prefix topic policy.mqtt_subscribe_prefix ≡ true)
      × (length topic < topic_max)
unfolding check_subscribe subscribe_under
check_subscribe-allows p id req topic e =
    let after_topic : Text → Result Text =
      λ t. network_policy_for (some p) id >>= subscribe_under t in
    let (t, _, e1) = bind_ok (or_bad (find_text req key_topic)) after_topic topic e in
    let (policy, found, e2) =
      bind_ok (network_policy_for (some p) id) (subscribe_under t) topic e1 in
    let (prefixed, copy) =
      guard_ok (text_has_prefix t policy.mqtt_subscribe_prefix) capability_denied
        (copy_text topic_max t) topic e2 in
    let (same, short) = copy_text-fits topic_max t topic copy in
    (
      policy,
      policy-found p id policy found,
      subst (λ (k : Text). text_has_prefix k policy.mqtt_subscribe_prefix ≡ true) same prefixed,
      short,
    )

pub check_http-allows :
    (p : DeviceProfile) (id : ℕ) (req : List ℕ) (method url : Text) (len : ℕ)
    → check_http (some p) id req ≡ ok (method, url, len)
    → (policy : NetworkResource) × (find_network_by_id p id ≡ some policy)
      × (text_has_prefix url policy.http_url_prefix ≡ true)
      × (method_allowed method policy.http_methods_csv ≡ true)
      × (len ≤ policy.max_payload_bytes)
unfolding check_http http_under
check_http-allows p id req method url len e =
    let result : Text × Text × ℕ = (method, url, len) in
    let after_len : Text → Text → ℕ → Result (Text × Text × ℕ) = λ m u l.
      guard (leb l net_payload_max) bad_length
      >> (network_policy_for (some p) id >>= http_under m u l) in
    let after_url : Text → Text → Result (Text × Text × ℕ) =
      λ m u. payload_len_of req >>= after_len m u in
    let after_method : Text → Result (Text × Text × ℕ) =
      λ m. or_bad (find_text req key_url) >>= after_url m in
    let (m, _, e1) = bind_ok (or_bad (find_text req key_method)) after_method result e in
    let (u, _, e2) = bind_ok (or_bad (find_text req key_url)) (after_url m) result e1 in
    let (l, _, e3) = bind_ok (payload_len_of req) (after_len m u) result e2 in
    let (_, e4) =
      guard_ok (leb l net_payload_max) bad_length
        (network_policy_for (some p) id >>= http_under m u l) result e3 in
    let (policy, found, e5) =
      bind_ok (network_policy_for (some p) id) (http_under m u l) result e4 in
    let (both, e6) =
      guard_ok
        (text_has_prefix u policy.http_url_prefix && method_allowed m policy.http_methods_csv)
        capability_denied (guard (leb l policy.max_payload_bytes) bad_length >> ok (m, u, l)) result
        e5 in
    let (fits, e7) =
      guard_ok (leb l policy.max_payload_bytes) bad_length (ok (m, u, l)) result e6 in
    let (prefixed, allowed) =
      and_split (text_has_prefix u policy.http_url_prefix)
        (method_allowed m policy.http_methods_csv) both in
    subst
      (λ (k : Text × Text × ℕ).
        (policy : NetworkResource) × (find_network_by_id p id ≡ some policy)
        × (text_has_prefix k.1 policy.http_url_prefix ≡ true)
        × (method_allowed k.0 policy.http_methods_csv ≡ true)
        × (k.2 ≤ policy.max_payload_bytes))
      (ok_inj e7)
      (
        policy,
        policy-found p id policy found,
        prefixed,
        allowed,
        leb→le l policy.max_payload_bytes fits,
      )
