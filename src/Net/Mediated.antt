-- ===== src/Net/Mediated.antt =====
-- Each operation of wdc_net.c keeps what it records of the network calls within the profile.
use pulse_esp32_host.Base.{
  ℕ, ◌+◌, ◌≡◌, ◌⊎◌, inl, inr, refl, subst, true, not, List, Option, some, Result, Status, ok, err,
  Error, if_both, ◌==◌, if◌then◌else◌, Text, invalid_state, not_synchronized, response_too_small,
  u32,
}
use pulse_esp32_host.Profile.Defs.{DeviceProfile}
use pulse_esp32_host.Events.Queue.{EventQueue}
use pulse_esp32_host.HostCall.Opcode.{
  Opcode, net_status, mqtt_publish, mqtt_subscribe, http_request,
}
use pulse_esp32_host.Net.Defs.{
  NetState, Net, method_max, url_max, copy_text, parse_network_resource, text_has_prefix,
}
use pulse_esp32_host.Net.Calls.{
  Answer, reject, checked, require_connected, when_connected, next_request_id, check_publish,
  published, mqtt_publish_call, check_subscribe, subscribed, mqtt_subscribe_call, check_http,
  requested, set_method, copy_request, http_request_call, run_opcode, net_host_call,
}
use pulse_esp32_host.Net.Steps.{net_set_state}
use pulse_esp32_host.Net.Allowed.{
  IsPublish, IsSubscribe, IsHttp, copy_text-fits, check_publish-allows, check_subscribe-allows,
  check_http-allows,
}

-- Each last operation is one of these, or none was recorded.
pub record IsMediated (p : DeviceProfile) (n : Net) : Type 0 where
  pub profile : n.profile ≡ some p
  pub publish : (n.status.last_publish.request_id ≡ 0) ⊎ IsPublish p n.status.last_publish
  pub subscribe : (n.status.last_subscribe.request_id ≡ 0) ⊎ IsSubscribe p n.status.last_subscribe
  pub http : (n.status.last_http_request.request_id ≡ 0) ⊎ IsHttp p n.status.last_http_request

module _ (p : DeviceProfile) where
  reject-keeps : (e : Error) (cap : ℕ) (n : Net) → IsMediated p n → IsMediated p (reject e cap n).1
  unfolding reject
  reject-keeps e cap n i = record {
    profile = i.profile;
    publish = i.publish;
    subscribe = i.subscribe;
    http = i.http;
  }

  checked-keeps :
      {A : Type 0} (r : Result A) (cap : ℕ) (n : Net) (k : A → Answer)
      → IsMediated p n
      → ((a : A) → r ≡ ok a → IsMediated p (k a).1)
      → IsMediated p (checked r cap n k).1
  unfolding checked
  checked-keeps (ok a) cap n k i h = h a refl
  checked-keeps (err e) cap n k i h = reject-keeps e cap n i

  when_connected-keeps :
      (cap : ℕ) (n : Net) (k : Net → Answer)
      → IsMediated p n
      → IsMediated p (k n).1
      → IsMediated p (when_connected cap (require_connected n) k).1
  unfolding require_connected when_connected
  when_connected-keeps cap n k i h =
      let s = n.status in
      let denied : Status × Net = (
        err not_synchronized,
        record n {
          status = record s {
            denied_disconnected_count = u32 (s.denied_disconnected_count + 1);
            last_status = err not_synchronized;
          };
        },
      ) in
      let P : Status × Net → Type 0 = λ x. IsMediated p (when_connected cap x k).1 in
      if_both P (not s.initialized) (err invalid_state, n)
        (if not s.is_connected then denied else (ok tt, n)) i
        (if_both P (not s.is_connected) denied (ok tt, n)
          (record {
            profile = i.profile;
            publish = i.publish;
            subscribe = i.subscribe;
            http = i.http;
          })
          h)

  -- What is checked against the profile of the state is checked against `p`.
  with_profile :
      {A : Type 0} (n : Net) (f : Option DeviceProfile → Result A) (a : A)
      → IsMediated p n
      → f n.profile ≡ ok a
      → f (some p) ≡ ok a
  with_profile {A} n f a i e = subst (λ (o : Option DeviceProfile). f o ≡ ok a) i.profile e

  mqtt_publish_call-keeps :
      (req : List ℕ) (cap : ℕ) (n : Net)
      → IsMediated p n
      → IsMediated p (mqtt_publish_call req cap n).1
  unfolding mqtt_publish_call published next_request_id
  mqtt_publish_call-keeps req cap n i =
      checked-keeps (parse_network_resource n.profile req) cap n
        (λ id.
          when_connected cap (require_connected n)
            λ n. checked (check_publish n.profile id req) cap n (published cap id n))
        i
        λ id _.
          when_connected-keeps cap n
            (λ n. checked (check_publish n.profile id req) cap n (published cap id n)) i
            (checked-keeps (check_publish n.profile id req) cap n (published cap id n) i
              (recorded id))
    where
      recorded :
          (id : ℕ) (a : Text × ℕ × ℕ)
          → check_publish n.profile id req ≡ ok a
          → IsMediated p (published cap id n a).1
      recorded id (topic, len, qos) e =
          let (policy, found, prefixed, fits, known, short) =
            check_publish-allows p id req topic len qos
              (with_profile n (λ o. check_publish o id req) (topic, len, qos) i e) in
          record {
            profile = i.profile;
            publish = inr (record {
              policy = policy;
              found = found;
              prefixed = prefixed;
              payload_fits = fits;
              qos_known = known;
              topic_fits = short;
            });
            subscribe = i.subscribe;
            http = i.http;
          }

  mqtt_subscribe_call-keeps :
      (req : List ℕ) (cap : ℕ) (n : Net)
      → IsMediated p n
      → IsMediated p (mqtt_subscribe_call req cap n).1
  unfolding mqtt_subscribe_call subscribed next_request_id
  mqtt_subscribe_call-keeps req cap n i =
      checked-keeps (parse_network_resource n.profile req) cap n
        (λ id.
          when_connected cap (require_connected n)
            λ n. checked (check_subscribe n.profile id req) cap n (subscribed cap id n))
        i
        λ id _.
          when_connected-keeps cap n
            (λ n. checked (check_subscribe n.profile id req) cap n (subscribed cap id n)) i
            (checked-keeps (check_subscribe n.profile id req) cap n (subscribed cap id n) i
              (recorded id))
    where
      recorded :
          (id : ℕ) (topic : Text)
          → check_subscribe n.profile id req ≡ ok topic
          → IsMediated p (subscribed cap id n topic).1
      recorded id topic e =
          let (policy, found, prefixed, short) =
            check_subscribe-allows p id req topic
              (with_profile n (λ o. check_subscribe o id req) topic i e) in
          record {
            profile = i.profile;
            publish = i.publish;
            subscribe = inr (record {
              policy = policy;
              found = found;
              prefixed = prefixed;
              topic_fits = short;
            });
            http = i.http;
          }

  set_method-keeps : (n : Net) (method : Text) → IsMediated p n → IsMediated p (set_method n method)
  set_method-keeps n method i = record {
    profile = i.profile;
    publish = i.publish;
    subscribe = i.subscribe;
    http = elim i.http [
      | inl none_yet ↦ inl none_yet
      | inr h ↦ inr (record {
        policy = h.policy;
        found = h.found;
        prefixed = h.prefixed;
        payload_fits = h.payload_fits;
        url_fits = h.url_fits;
      })
    ];
  }

  http_request_call-keeps :
      (req : List ℕ) (cap : ℕ) (n : Net)
      → IsMediated p n
      → IsMediated p (http_request_call req cap n).1
  unfolding http_request_call copy_request requested next_request_id
  http_request_call-keeps req cap n i =
      checked-keeps (parse_network_resource n.profile req) cap n
        (λ id.
          when_connected cap (require_connected n)
            λ n. checked (check_http n.profile id req) cap n (copy_request cap id n))
        i
        λ id _.
          when_connected-keeps cap n
            (λ n. checked (check_http n.profile id req) cap n (copy_request cap id n)) i
            (checked-keeps (check_http n.profile id req) cap n (copy_request cap id n) i
              (recorded id))
    where
      recorded :
          (id : ℕ) (a : Text × Text × ℕ)
          → check_http n.profile id req ≡ ok a
          → IsMediated p (copy_request cap id n a).1
      recorded id (method, url, len) e =
          let (policy, found, prefixed, _, fits) =
            check_http-allows p id req method url len
              (with_profile n (λ o. check_http o id req) (method, url, len) i e) in
          checked-keeps (copy_text method_max method) cap n
            (λ m.
              checked (copy_text url_max url) cap (set_method n m)
                (requested cap id len (set_method n m)))
            i
            λ m _.
              checked-keeps (copy_text url_max url) cap (set_method n m)
                (requested cap id len (set_method n m)) (set_method-keeps n m i)
                λ u copy.
                  let (same, short) = copy_text-fits url_max url u copy in
                  record {
                    profile = i.profile;
                    publish = i.publish;
                    subscribe = i.subscribe;
                    http = inr (record {
                      policy = policy;
                      found = found;
                      prefixed =
                          subst (λ (k : Text). text_has_prefix k policy.http_url_prefix ≡ true) same
                            prefixed;
                      payload_fits = fits;
                      url_fits = short;
                    });
                  }

  run_opcode-keeps :
      (o : Opcode) (req : List ℕ) (cap : ℕ) (n : Net)
      → IsMediated p n
      → IsMediated p (run_opcode o req cap n).1
  unfolding run_opcode
  run_opcode-keeps net_status req cap n i = i
  run_opcode-keeps mqtt_publish req cap n i = mqtt_publish_call-keeps req cap n i
  run_opcode-keeps mqtt_subscribe req cap n i = mqtt_subscribe_call-keeps req cap n i
  run_opcode-keeps http_request req cap n i = http_request_call-keeps req cap n i
  run_opcode-keeps _ req cap n i = i

  pub net_host_call-keeps :
      (o : Opcode) (req : List ℕ) (cap : ℕ) (n : Net)
      → IsMediated p n
      → IsMediated p (net_host_call o req cap n).1
  unfolding net_host_call
  net_host_call-keeps o req cap n i =
      if_both (λ (a : Answer). IsMediated p a.1) (cap == 0) (err response_too_small, n)
        (run_opcode o req cap n) i (run_opcode-keeps o req cap n i)

  pub net_set_state-keeps :
      (state : NetState) (reason : Option Text) (n : Net) (q : EventQueue)
      → IsMediated p n
      → IsMediated p (net_set_state state reason n q).1
  unfolding net_set_state
  net_set_state-keeps state reason n q i =
      let kept : IsMediated p _ = record {
        profile = i.profile;
        publish = i.publish;
        subscribe = i.subscribe;
        http = i.http;
      } in
      if_both (λ (a : Status × Net × EventQueue). IsMediated p a.1) (not n.status.initialized) _ _ i
        (if_both (λ (a : Status × Net × EventQueue). IsMediated p a.1) _ _ _ kept kept)
