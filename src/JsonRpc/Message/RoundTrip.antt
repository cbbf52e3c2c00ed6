-- ===== src/JsonRpc/Message/RoundTrip.antt =====
-- Requests of repository_context_provider/json_rpc.rs, encoded and parsed.
use pre_commit_review.Prelude.{
  ℕ, ◌≤◌, ◌≡◌, refl, sym, ap, ◌∙◌, inl, inr, true, false, Option, none, some, ok, err, ◌>>=◌,
  >>=-eq-ok, ok-injective, Bytes, codes, arith, ltb, length, if◌then◌else◌, Bool-cases, usize_max,
  Option-cases,
}
use pre_commit_review.Prelude.Texts.{text_eq}
use pre_commit_review.Prelude.Utf8.{Text}
use pre_commit_review.JsonRpc.Protocol.{bounded_method}
use pre_commit_review.JsonRpc.Encode.{frame_of, frame_json}
use pre_commit_review.JsonRpc.Message.{
  Json, ServerRequestId, InboundMessage, max_value_bytes, message_limit, field, put, put_params,
  bounded_method_value, bounded_value, bounded_params, parse_server_id, parse_request,
  parse_inbound, rpc_object, encode_request,
}
use pre_commit_review.JsonRpc.Message.SerdeJson.{Shape, IsJson, IsDecodable}

frame_json-ok :
    {V : Type 0} (to_vec : V → Option Bytes) (v : V) (frame : Bytes)
    → frame_json to_vec v ≡ ok frame
    → (body : Bytes) × (to_vec v ≡ some body) × (frame ≡ frame_of body)
unfolding frame_json
frame_json-ok to_vec v frame = elim (Option-cases (to_vec v)) [
  | inl e ↦ rw e (λ h. absurd (ground arith))
  | inr (body, e) ↦ rw e (λ h. (body, refl, ground arith))
]

bounded_method-ok : (s t : Text) → bounded_method s ≡ ok t → t ≡ s
unfolding bounded_method
bounded_method-ok s t h = ground arith

module _ {V O : Type 0} (json : Json V O) (shape : Shape V O) (laws : IsJson json shape) where
  bounded_value-ok : (v p : Option V) → bounded_value json v ≡ ok p → p ≡ v
  unfolding bounded_value
  bounded_value-ok none p h = ground arith
  bounded_value-ok (some v) p h = ground arith

  bounded_params-ok : (v p : Option V) → bounded_params json v ≡ ok p → p ≡ v
  unfolding bounded_params
  bounded_params-ok v p h = ground (arith, bounded_value-ok v p)

  put_params-other :
      (k : Bytes) (p : Option V) (o : O)
      → text_eq k (codes "params") ≡ false
      → json.get k (put_params json p o) ≡ json.get k o
  put_params-other k none o h = refl
  put_params-other k (some p) o h = ground (arith, laws.get_insert k (codes "params") p o)

  abbrev call_object : ℕ → Text → O
  call_object id method = put json "id" (json.number id) (
      put json "method" (json.string method)
        (put json "jsonrpc" (json.string (codes "2.0")) json.empty))

  module _ (id : ℕ) (method : Text) (p : Option V) where
    abbrev call : O
    call = put_params json p (call_object id method)

    call-jsonrpc : field json "jsonrpc" call ≡ some (json.string (codes "2.0"))
    unfolding text_eq
    call-jsonrpc =
        put_params-other (codes "jsonrpc") p (call_object id method) refl
        ∙ laws.get_insert (codes "jsonrpc") (codes "id") _ _
        ∙ laws.get_insert (codes "jsonrpc") (codes "method") _ _
        ∙ laws.get_insert (codes "jsonrpc") (codes "jsonrpc") _ _

    call-method : field json "method" call ≡ some (json.string method)
    unfolding text_eq
    call-method =
        put_params-other (codes "method") p (call_object id method) refl
        ∙ laws.get_insert (codes "method") (codes "id") _ _
        ∙ laws.get_insert (codes "method") (codes "method") _ _

    call-id : field json "id" call ≡ some (json.number id)
    unfolding text_eq
    call-id =
        put_params-other (codes "id") p (call_object id method) refl
        ∙ laws.get_insert (codes "id") (codes "id") _ _

    call-none :
        (k : Bytes)
        → text_eq k (codes "params") ≡ false
        → text_eq k (codes "id") ≡ false
        → text_eq k (codes "method") ≡ false
        → text_eq k (codes "jsonrpc") ≡ false
        → json.get k call ≡ none
    call-none k a b c d =
        put_params-other k p (call_object id method) a
        ∙ ground (
          arith,
          laws.get_insert k (codes "id") (json.number id) (
              put json "method" (json.string method)
                (put json "jsonrpc" (json.string (codes "2.0")) json.empty)),
          laws.get_insert k (codes "method") (json.string method)
              (put json "jsonrpc" (json.string (codes "2.0")) json.empty),
          laws.get_insert k (codes "jsonrpc") (json.string (codes "2.0")) json.empty,
          laws.get_empty k,
        )

  call-params : (id : ℕ) (method : Text) (p : Option V) → field json "params" (call id method p) ≡ p
  unfolding text_eq
  call-params id method (some p) = laws.get_insert (codes "params") (codes "params") _ _
  call-params id method none =
      laws.get_insert (codes "params") (codes "id") _ _
      ∙ laws.get_insert (codes "params") (codes "method") _ _
      ∙ laws.get_insert (codes "params") (codes "jsonrpc") _ _
      ∙ laws.get_empty (codes "params")

  call_object-shape :
      (id : ℕ) (method : Text)
      → (shape.map_depth (call_object id method) ≡ 0)
        × (shape.is_exact_map (call_object id method) ≡ true)
  call_object-shape id method =
      let two = json.string (codes "2.0") in
      let base = put json "jsonrpc" two json.empty in
      let named = put json "method" (json.string method) base in
      (
        omega (
          arith,
          laws.depth_insert (codes "id") (json.number id) named,
          laws.depth_insert (codes "method") (json.string method) base,
          laws.depth_insert (codes "jsonrpc") two json.empty,
          laws.depth_number id,
          laws.depth_string method,
          laws.depth_string (codes "2.0"),
          laws.depth_empty,
        ),
        laws.exact_insert (codes "id") (json.number id) named (laws.exact_number id) (
            laws.exact_insert (codes "method") (json.string method) base (laws.exact_string method)
              (laws.exact_insert (codes "jsonrpc") two json.empty (laws.exact_string (codes "2.0"))
                laws.exact_empty)),
      )

  -- A call with decodable parameters is decoded.
  call-decodes :
      (id : ℕ) (method : Text) (p : Option V) (body : Bytes)
      → IsDecodable shape p
      → json.to_vec (json.object (call id method p)) ≡ some body
      → json.from_slice body ≡ some (json.object (call id method p))
  call-decodes id method none body m hb =
      let (depth, exact) = call_object-shape id method in
      let o = call_object id method in
      laws.decodes (json.object o) body (omega (arith, laws.depth_object o, depth))
        (laws.exact_object o ∙ exact) hb
  call-decodes id method (some p) body m hb =
      let (depth, exact) = call_object-shape id method in
      let base = call_object id method in
      let o = call id method (some p) in
      laws.decodes (json.object o) body
        (omega (arith, laws.depth_object o, laws.depth_insert (codes "params") p base, depth, m.0))
        (laws.exact_object o ∙ laws.exact_insert (codes "params") p base m.1 exact) hb

  parse_server_id-number :
      (id : ℕ)
      → id ≤ usize_max
      → parse_server_id json (json.number id) ≡ ok (ServerRequestId.number id)
  unfolding parse_server_id
  parse_server_id-number id n = rw (parse_server_id, laws.numbers id n) refl

  parse_request-number :
      (id : ℕ) (method : Text) (p : Option V)
      → id ≤ usize_max
      → parse_request json method p (some (json.number id))
        ≡ ok (
            InboundMessage.request
              (record { id = ServerRequestId.number id; method = method; params = p }))
  parse_request-number id method p n =
      ap
        (λ r.
          r >>= λ i. ok (InboundMessage.request (record { id = i; method = method; params = p })))
        (parse_server_id-number id n)

  method_value : (s : Text) → bounded_method_value json (json.string s) ≡ bounded_method s
  unfolding bounded_method_value
  method_value s = rw (laws.strings s) refl

  rpc_object-ok :
      (method : Text) (o : O)
      → rpc_object json method ≡ ok o
      → (bounded_method method ≡ ok method)
        × (put json "method"
              (json.string method)
              (put json "jsonrpc" (json.string (codes "2.0")) json.empty)
            ≡ o)
  unfolding rpc_object
  rpc_object-ok method o h =
      let (m, hm, h') = >>=-eq-ok (bounded_method_value json (json.string method)) _ h in
      let hm' : bounded_method method ≡ ok m = sym (method_value method) ∙ hm in
      let same : m ≡ method = bounded_method-ok method m hm' in
      (
        hm' ∙ ap ok same,
        ap
              (λ x.
                put json "method" (json.string x)
                  (put json "jsonrpc" (json.string (codes "2.0")) json.empty))
              (sym same)
            ∙ ok-injective h',
      )

  parse_inbound-call :
      (id : ℕ) (method : Text) (p : Option V) (body : Bytes)
      → id ≤ usize_max
      → bounded_method method ≡ ok method
      → bounded_params json p ≡ ok p
      → IsDecodable shape p
      → json.to_vec (json.object (call id method p)) ≡ some body
      → parse_inbound json body ≡ (
          if ltb max_value_bytes (length body)
          then err (message_limit "JSON-RPC message exceeded the limit")
          else ok (
              InboundMessage.request
                (record { id = ServerRequestId.number id; method = method; params = p })))
  unfolding parse_inbound bounded_method_value text_eq
  parse_inbound-call id method p body n hm hp hd hb =
      elim (Bool-cases (ltb max_value_bytes (length body))) [
        | inl q ↦ rw q refl
        | inr q ↦
            rw
              (
                q,
                call-decodes id method p body hd hb,
                laws.objects (call id method p),
                call-jsonrpc id method p,
                laws.same_self (json.string (codes "2.0")),
                call-method id method p,
                call-none id method p (codes "result") refl refl refl refl,
                call-none id method p (codes "error") refl refl refl refl,
                laws.strings method,
                hm,
                call-params id method p,
                hp,
                call-id id method p,
              )
              (parse_request-number id method p n)
      ]

  -- If `serde_json` has the laws of IsJson, then a request whose id is a u64, and whose parameters, if
  -- any, have no floating-point number and are nested at most 126 levels deep, comes back from
  -- parse_inbound, once encode_request has framed it, with its id, its method and its parameters. The
  -- exception is a body that is longer than a message may be, which is refused.
  pub parse_inbound-encode_request :
      (id : ℕ) (method : Text) (params : Option V) (frame : Bytes)
      → id ≤ usize_max
      → IsDecodable shape params
      → encode_request json id method params ≡ ok frame
      → (body : Bytes) × (frame ≡ frame_of body)
        × (parse_inbound json body ≡ (
            if ltb max_value_bytes (length body)
            then err (message_limit "JSON-RPC message exceeded the limit")
            else ok (
                InboundMessage.request
                  (record { id = ServerRequestId.number id; method = method; params = params }))))
  unfolding encode_request
  parse_inbound-encode_request id method params frame n d h =
      let (o, ho, h1) = >>=-eq-ok (rpc_object json method) _ h in
      let (p, hp, h2) = >>=-eq-ok (bounded_params json params) _ h1 in
      let (hm, eo) = rpc_object-ok method o ho in
      let ep : p ≡ params = bounded_params-ok params p hp in
      let (body, hb, hf) = frame_json-ok json.to_vec _ frame h2 in
      let same : put_params json p (put json "id" (json.number id) o) ≡ call id method params =
        ap (λ x. put_params json x (put json "id" (json.number id) o)) ep
        ∙ ap (λ x. put_params json params (put json "id" (json.number id) x)) (sym eo) in
      (
        body,
        hf,
        parse_inbound-call id method params body n hm (hp ∙ ap ok ep) d
            (ap (λ x. json.to_vec (json.object x)) (sym same) ∙ hb),
      )
