-- ===== src/Registry/Requests.antt =====
-- image.go: which requests `get` sends, and which reply it gives.
use curimata.Common.{
  ◌≡◌, ◌≢◌, refl, sym, ◌∙◌, inl, inr, true, List, [], ◌∷◌, ◌++◌, Option, none, some, Bytes,
  bytes_eq, bytes_eq_iff, bytes_eq_refl, codes, Bool-cases, Option-cases, Result, ok, err, ◌==◌,
  ==_iff,
}
use curimata.Text.Search.{cut_prefix}
use curimata.Image.{ImageRef, split_challenge}
use curimata.Registry.{
  Request, Reply, RegistryError, World, Client, value_of, Asked, store_token, chosen_token,
  with_token, sending, token_request, ask_token, scope_of, with_params, params_of, authenticate,
  url_of, Got, request_of, attempt, checked, again, respond, get,
}

-- A request for the token that a challenge asks for: at its realm, and with no token of the client.
abbrev pub IsTokenRequest : Bytes → Request → Type 0
IsTokenRequest challenge q =
    (rest : Bytes) × (cut_prefix challenge (codes "Bearer ") ≡ some rest)
    × (q.url ≡ value_of (params_of (split_challenge rest) []) (codes "realm"))
    × (q.url ≢ [])
    × (q.token ≡ [])
    × (q.accept ≡ [])

-- The token that the reply to the last of some requests gives.
abbrev pub IsNewToken : World → List Request → Bytes → Type 0
IsNewToken w sent token =
    (r : Reply) × (first : Bytes) × (access : Bytes) × (w.answer sent ≡ some r)
    × (r.status ≡ 200)
    × (w.decode_token r ≡ some (first, access))
    × (token ≡ chosen_token first access)
    × (token ≢ [])

-- At most one request for a token is new.
abbrev AreTokens : Bytes → List Request → Type 0
AreTokens challenge [] = Unit
AreTokens challenge (q ∷ []) = IsTokenRequest challenge q
AreTokens challenge (q ∷ p ∷ qs) = ⊥

-- With a new token for the repository a request for it was sent and answered.
abbrev IsAsked : World → ImageRef → Bytes → Client → Asked → Type 0
IsAsked w img challenge c (some e, d) =
    (news : List Request) × AreTokens challenge news × (d.sent ≡ news ++ c.sent)
IsAsked w img challenge c (none, d) =
    (q : Request) × IsTokenRequest challenge q
    × (d.sent ≡ q ∷ c.sent)
    × IsNewToken w (q ∷ c.sent) (value_of d.tokens img.repo)

module _ (w : World) (img : ImageRef) (challenge : Bytes) (c : Client) where
  store_token-IsAsked :
      (q : Request) (r : Reply) (first access token : Bytes)
      → IsTokenRequest challenge q
      → w.answer (q ∷ c.sent) ≡ some r
      → r.status ≡ 200
      → w.decode_token r ≡ some (first, access)
      → token ≡ chosen_token first access
      → IsAsked w img challenge c (store_token img token (sending q c))
  unfolding store_token value_of
  store_token-IsAsked q r first access [] h a s d t = (q ∷ [], h, refl)
  store_token-IsAsked q r first access (b ∷ token) h a s d t =
      let stored : value_of ((img.repo, b ∷ token) ∷ c.tokens) img.repo ≡ b ∷ token =
        rw (bytes_eq_refl img.repo, value_of) refl in
      (q, h, refl, (r, first, access, a, s, d, stored ∙ t, λ x. let bad = sym stored ∙ x in cc))

  with_token-IsAsked :
      (q : Request) (reply : Option Reply)
      → IsTokenRequest challenge q
      → w.answer (q ∷ c.sent) ≡ reply
      → IsAsked w img challenge c (with_token w img reply (sending q c))
  unfolding with_token
  with_token-IsAsked q none h a = (q ∷ [], h, refl)
  with_token-IsAsked q (some r) h a = elim (Bool-cases (r.status == 200)) [
    | inr s ↦ rw (s, with_token) (q ∷ [], h, refl)
    | inl s ↦ elim (Option-cases (w.decode_token r)) [
      | inl d ↦ rw (s, d, with_token) (q ∷ [], h, refl)
      | inr ((first, access), d) ↦
          rw (s, d, with_token)
            (store_token-IsAsked q r first access (chosen_token first access) h a
              ((==_iff r.status 200).0 s) d refl)
    ]
  ]

  ask_token-IsAsked :
      (rest service scope : Bytes)
      → cut_prefix challenge (codes "Bearer ") ≡ some rest
      → value_of (params_of (split_challenge rest) []) (codes "realm") ≢ []
      → IsAsked w img challenge c (
          ask_token w img
            (value_of (params_of (split_challenge rest) []) (codes "realm"))
            service
            scope
            c)
  unfolding ask_token token_request
  ask_token-IsAsked rest service scope e n =
      let realm = value_of (params_of (split_challenge rest) []) (codes "realm") in
      elim (Bool-cases (w.is_url realm)) [
        | inr u ↦ rw (u, ask_token) ([], tt, refl)
        | inl u ↦
            let q = token_request realm service scope in
            rw (u, ask_token)
              (with_token-IsAsked q (w.answer (q ∷ c.sent)) (rest, e, refl, n, refl, refl) refl)
      ]

  authenticate-IsAsked : IsAsked w img challenge c (authenticate w img challenge c)
  unfolding authenticate with_params
  authenticate-IsAsked = elim (Option-cases (cut_prefix challenge (codes "Bearer "))) [
    | inl e ↦ rw (e, authenticate) ([], tt, refl)
    | inr (rest, e) ↦
        let params = params_of (split_challenge rest) [] in
        let realm = value_of params (codes "realm") in
        elim (Bool-cases (bytes_eq realm [])) [
          | inl z ↦ rw (e, z, authenticate, with_params) ([], tt, refl)
          | inr z ↦
              rw (e, z, authenticate, with_params)
                (ask_token-IsAsked rest (value_of params (codes "service"))
                  (scope_of img (value_of params (codes "scope"))) e
                  (λ x. let both = (bytes_eq_iff realm []).1 x in let bad = sym z ∙ both in cc))
        ]
  ]

module _ (w : World) (img : ImageRef) (path : Bytes) (accept : List Bytes) (c : Client) where
  -- The first call was refused for want of a token.
  abbrev pub IsRefused : Bytes → Type 0
  IsRefused challenge =
      (r : Reply) × (w.answer (request_of img path accept c ∷ c.sent) ≡ some r)
      × (r.status ≡ 401)
      × (r.challenge ≡ challenge)

  -- The requests that are new, the last first.
  abbrev pub AreNews : List Request → Type 0
  AreNews [] = Unit
  AreNews (q ∷ []) = q ≡ request_of img path accept c
  AreNews (t ∷ q ∷ []) =
      (q ≡ request_of img path accept c)
      × (challenge : Bytes) × IsRefused challenge
      × IsTokenRequest challenge t
  AreNews (p ∷ t ∷ q ∷ []) =
      (q ≡ request_of img path accept c)
      × (challenge : Bytes) × IsRefused challenge
      × IsTokenRequest challenge t
      × IsNewToken w (t ∷ q ∷ c.sent) p.token
      × (p.url ≡ q.url)
      × (p.accept ≡ q.accept)
      × (p.query ≡ q.query)
  AreNews (o ∷ p ∷ t ∷ q ∷ qs) = ⊥

  -- A reply answers the last request, and its status is 200.
  abbrev pub IsAnswered : Result RegistryError Reply → Client → Type 0
  IsAnswered (err e) d = Unit
  IsAnswered (ok r) d = (r.status ≡ 200) × (w.answer d.sent ≡ some r)

  abbrev pub IsExchange : Got → Type 0
  IsExchange (result, d) =
      ((news : List Request) × AreNews news × (d.sent ≡ news ++ c.sent)) × IsAnswered result d

  checked-IsExchange :
      (o : Option Reply) (d : Client) (news : List Request)
      → w.answer d.sent ≡ o
      → AreNews news
      → d.sent ≡ news ++ c.sent
      → IsExchange (checked (o, d))
  checked-IsExchange none d news a n s = ((news, n, s), tt)
  checked-IsExchange (some r) d news a n s = elim (Bool-cases (r.status == 200)) [
    | inl e ↦ rw e ((news, n, s), ((==_iff r.status 200).0 e, a))
    | inr e ↦ rw e ((news, n, s), tt)
  ]

  -- The request of the first attempt was refused, and a token may have been asked for.
  again-IsExchange :
      (challenge : Bytes) (a : Asked)
      → w.is_url (url_of img path) ≡ true
      → IsRefused challenge
      → IsAsked w img challenge (sending (request_of img path accept c) c) a
      → IsExchange (again w img path accept a)
  unfolding again attempt
  again-IsExchange challenge (some e, d) u r ([], h, s) =
      ((request_of img path accept c ∷ [], refl, s), tt)
  again-IsExchange challenge (some e, d) u r (t ∷ [], h, s) =
      ((t ∷ request_of img path accept c ∷ [], (refl, challenge, r, h), s), tt)
  again-IsExchange challenge (some e, d) u r (t ∷ p ∷ qs, h, s) = absurd h
  again-IsExchange challenge (none, d) u r (t, h, s, new) =
      let p = request_of img path accept d in
      rw (u, again, attempt)
        (checked-IsExchange (w.answer (p ∷ d.sent)) (sending p d)
          (p ∷ t ∷ request_of img path accept c ∷ []) refl
          (refl, challenge, r, h, new, refl, refl, refl) (rw s refl))

  -- Whatever the calls of `http.Client.Do` return, `get` makes at most three: one for the path at the registry of the
  -- image, with the token that the client has for the repository; when this is answered with the status 401, one for
  -- a token at the realm of the challenge, which carries no token of the client; and when this is answered with the
  -- status 200 and a token that is not empty, one for the path again, with that token. A reply that `get` gives is
  -- the one to the last call and has the status 200. The redirects that a call follows are not counted.
  pub get-IsExchange : IsExchange (get w img path accept c)
  unfolding get respond attempt
  get-IsExchange =
      let q = request_of img path accept c in
      elim (Bool-cases (w.is_url (url_of img path))) [
        | inr u ↦ rw (u, get, attempt, respond) (([], tt, refl), tt)
        | inl u ↦ elim (Option-cases (w.answer (q ∷ c.sent))) [
          | inl a ↦ rw (u, a, get, attempt, respond) ((q ∷ [], refl, refl), tt)
          | inr (r, a) ↦ elim (Bool-cases (r.status == 401)) [
            | inr s ↦
                rw (u, a, s, get, attempt, respond)
                  (checked-IsExchange (some r) (sending q c) (q ∷ []) a refl refl)
            | inl s ↦
                rw (u, a, s, get, attempt, respond)
                  (again-IsExchange r.challenge (authenticate w img r.challenge (sending q c)) u
                    (r, a, (==_iff r.status 401).0 s, refl)
                    (authenticate-IsAsked w img r.challenge (sending q c)))
          ]
        ]
      ]
