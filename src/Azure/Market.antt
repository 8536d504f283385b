-- ===== src/Azure/Market.antt =====
-- The client of the Azure Marketplace (ci/glci/az.py). The answers of `requests` and `msal` are
-- parameters.
pub mod Tokens
use gardenlinux.Prelude.{
  ◌≡◌, String, ◌<>◌, Bool, true, false, ◌&&◌, Option, none, some, List, [], ◌∷◌, ◌==◌,
  if◌then◌else◌, join, string_eq, Eq, arith, ◌↔◌,
}
use gardenlinux.Prelude.Result.{Result, ok, err, Error, value_error, runtime_error, key_error}
use gardenlinux.Prelude.Action.{Action, return, raise, lift, check, ◌>>=◌, ◌>>◌}
use gardenlinux.Prelude.Dicts.{Dict, set_default}
use gardenlinux.Azure.Offers.{OfferSpec}
use gardenlinux.Azure.Operations.{
  OperationState, TransportDest, Submission, operation_state, ongoing_id,
}

pub record AzureServicePrincipalCfg : Type 0 where
  pub tenant_id : String
  pub client_id : String
  pub client_secret : String

-- The `json` argument of a request.
pub data Body : Type 0 where
  no_body : Body
  offer : OfferSpec → Body
  notification_emails : String → Body

-- `acquire_token_for_client` returns a dictionary with an error or with a token.
pub data Token : Type 0 where
  error : Token
  access_token : String → Token

pub record Web : Type 1 where
  pub World : Type 0
  pub Response : Type 0
  -- `acquire_token_for_client` of a tenant, a client and its secret
  pub acquire_token : String → String → String → Action World Token
  -- `requests.request`: the method, the URL, the headers, the parameters and the document
  pub request : String → String → Dict String → Dict String → Body → Action World Response
  pub is_ok : Response → Bool
  -- what the code reads of `response.json()`
  pub offer_of : Response → Result OfferSpec
  pub submissions_of : Response → Result (List Submission)
  pub status_of : Response → Result String

-- The defaults `headers={}` and `params={}` of `_request` are two dictionaries that all calls share.
pub record Session (W : Web) : Type 0 where
  pub world : W.World
  pub headers : Dict String
  pub params : Dict String

abbrev pub marketplace_baseurl : String
marketplace_baseurl = "https://cloudpartner.azure.com/api/publishers"

-- `_api_url(*parts)`
unfoldable pub api_url : List String → String
api_url parts = join "/" (marketplace_baseurl ∷ parts)

unfoldable pub with_headers : String → Dict String → Dict String
with_headers token headers =
    set_default "Content-Type" "application/json"
      (set_default "Authorization" ("Bearer " <> token) headers)

unfoldable pub with_params : Dict String → Dict String
with_params params = set_default "api-version" "2017-10-31" params

module _ (W : Web) where
  open W use {World, Response, acquire_token, is_ok, offer_of, submissions_of, status_of}

  abbrev in_world : {A : Type 0} → Session W → Result A × World → Result A × Session W
  in_world s (r, w) = (r, record s { world = w })

  abbrev token_of : Token → Action (Session W) String
  token_of error = raise runtime_error
  token_of (access_token t) = return t

  -- `AzureMarketplaceClient(…)`: the token that it keeps
  unfoldable pub marketplace_client : String → String → String → Action (Session W) String
  marketplace_client spn_tenant_id spn_client_id spn_client_secret = do
    token ← λ s. in_world s (acquire_token spn_tenant_id spn_client_id spn_client_secret s.world)
    token_of token

  -- `_request`, without headers: the shared ones are filled, and stay so.
  unfoldable pub request_by_default : String → String → String → Body → Action (Session W) Response
  unfolding with_headers with_params
  request_by_default token method url body s =
      let headers = with_headers token s.headers in
      let params = with_params s.params in
      in_world (record s { headers = headers; params = params })
        (W.request method url headers params body s.world)

  -- `_request`, with headers of the call's own
  unfoldable pub request_with :
      Dict String → String → String → String → Body → Action (Session W) Response
  unfolding with_headers with_params
  request_with headers token method url body s =
      let params = with_params s.params in
      in_world (record s { params = params })
        (W.request method url (with_headers token headers) params body s.world)

  -- `_raise_for_status`
  raise_for_status : Response → Action (Session W) (Unit {0})
  raise_for_status response = check (is_ok response) runtime_error

  module _ (token publisher_id offer_id : String) where
    unfoldable pub fetch_offer : Action (Session W) OfferSpec
    unfolding raise_for_status
    fetch_offer = do
      response ←
          request_by_default token "GET" (api_url (publisher_id ∷ "offers" ∷ offer_id ∷ [])) no_body
      raise_for_status response
      lift (offer_of response)

    unfoldable pub update_offer : OfferSpec → Action (Session W) (Unit {0})
    unfolding raise_for_status
    update_offer spec = do
      response ←
          request_with (("If-Match", "*") ∷ []) token "PUT"
            (api_url (publisher_id ∷ "offers" ∷ offer_id ∷ [])) (offer spec)
      raise_for_status response

    unfoldable pub publish_offer : List String → Action (Session W) (Unit {0})
    unfolding raise_for_status
    publish_offer notification_mails = do
      response ←
          request_by_default token "POST"
            (api_url (publisher_id ∷ "offers" ∷ offer_id ∷ "publish" ∷ []))
            (notification_emails (join "," notification_mails))
      raise_for_status response

    unfoldable pub fetch_operation_state : String → Action (Session W) OperationState
    unfolding raise_for_status
    fetch_operation_state operation_id = do
      response ←
          request_by_default token "GET"
            (api_url (publisher_id ∷ "offers" ∷ offer_id ∷ "operations" ∷ operation_id ∷ []))
            no_body
      raise_for_status response
      status ← lift (status_of response)
      lift (operation_state status)

    unfoldable pub go_live : Action (Session W) (Unit {0})
    unfolding raise_for_status
    go_live = do
      response ←
          request_by_default token "POST"
            (api_url (publisher_id ∷ "offers" ∷ offer_id ∷ "golive" ∷ [])) no_body
      raise_for_status response

    unfoldable pub fetch_ongoing_operation_id : TransportDest → Action (Session W) String
    unfolding raise_for_status
    fetch_ongoing_operation_id dest = do
      response ←
          request_by_default token "GET"
            (api_url (publisher_id ∷ "offers" ∷ offer_id ∷ "submissions" ∷ [])) no_body
      raise_for_status response
      submissions ← lift (submissions_of response)
      lift (ongoing_id dest submissions)
