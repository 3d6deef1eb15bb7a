-- ===== src/Net/Call.antt =====
-- net/http/http_call.cc with net/include/http_call.h, http_client.h, http_response.h and http_defines.h: a
-- call, which does nothing yet, and the classes around it, which have no members but their fields.
use nbsdk.Prelude.{Bool, false, Option, none, List, [], Text}
use nbsdk.Prelude.Int.{ℤ}
use nbsdk.Net.Request.{HttpRequest}

pub data HttpProtocol : Type 0 where
  http_1_0 http_1_1 http_2_0 : HttpProtocol

-- Which object of the empty struct.
abbrev pub ResponseBody : Type 0
ResponseBody = Unit {0}

pub record HttpResponse : Type 0 where
  pub protocol : HttpProtocol
  pub request : Option HttpRequest
  pub code : ℤ
  pub message : Text
  pub headers : List (Text × Text)
  pub body : ResponseBody
  pub send_request_at_millis : ℤ
  pub received_response_at_millis : ℤ

-- `Socket` stands for the resolver, the endpoint and the socket of boost.
pub record HttpClient (Socket : Type 0) : Type 0 where
  pub retry_on_connection_failure : Bool
  pub connect_timeout_ms : ℤ
  pub read_timeout_ms : ℤ
  pub write_timeout_ms : ℤ
  pub ping_interval_ms : ℤ
  pub socket : Socket

pub data CallbackMade : Type 0 where
  on_response : Option HttpResponse → CallbackMade
  on_failure : ℤ → Text → CallbackMade

-- The client is held weakly: `none` is a client that is gone.
pub record HttpCall (Socket : Type 0) : Type 0 where
  pub client : Option (HttpClient Socket)
  pub request : Option HttpRequest

module _ {Socket : Type 0} where
  unfoldable pub create : Option (HttpClient Socket) → Option HttpRequest → HttpCall Socket
  create client request = record { client = client; request = request }

  unfoldable pub request_of : HttpCall Socket → Option HttpRequest
  request_of call = call.request

  -- A null pointer.
  unfoldable pub execute : HttpCall Socket → Option HttpResponse
  execute call = none

  -- The call afterwards, and the callbacks that it made.
  unfoldable pub enqueue : HttpCall Socket → HttpCall Socket × List CallbackMade
  enqueue call = (call, [])

  unfoldable pub cancel : HttpCall Socket → HttpCall Socket
  cancel call = call

  unfoldable pub is_executed : HttpCall Socket → Bool
  is_executed call = false

  unfoldable pub is_canceled : HttpCall Socket → Bool
  is_canceled call = false
