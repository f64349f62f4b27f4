-- ===== src/Http.antt =====
-- internal/adapter/httpapi and its middleware: requests, responses and what the handlers answer.
pub mod Errors
pub mod Auth
pub mod Access
pub mod Handlers
pub mod Pages
pub mod Visibility
pub mod Router
use youpass_share_service.Base.{Bytes, Int64, Option, ℕ}
use youpass_share_service.Domain.Link.{Time}
use youpass_share_service.Domain.Error.{}
use youpass_share_service.Outcome.{}
use youpass_share_service.Share.Ports.{SharedView}

-- What the handlers ask Gin of a request. `code` is the parameter of the path. The bodies are
-- what ShouldBindJSON binds, or `none` where it reports an error; `user_id` is the value that the authentication sets.
pub record CreateRequest : Type 0 where
  pub resource_type : Bytes
  pub resource_id : Int64
  pub expires_in_days : Int64

pub record Request : Type 0 where
  pub authorization : Bytes
  pub visitor_header : Bytes
  pub visitor_cookie : Option Bytes
  pub user_agent : Bytes
  pub client_ip : Bytes
  pub code : Bytes
  pub create_body : Option CreateRequest
  pub status_body : Option Bytes
  pub token_body : Option Int64
  pub user_id : Int64

pub record LinkResponse : Type 0 where
  pub code : Bytes
  pub url : Bytes
  pub status : Bytes
  pub resource_type : Bytes
  pub resource_id : Int64
  pub expires_at : Option Time
  pub created_at : Time

pub record SharedViewResponse : Type 0 where
  pub code : Bytes
  pub owner_name : Bytes
  pub kind : Bytes
  pub title : Bytes
  pub content : Bytes
  pub band_score : ℕ
  pub feedback : Bytes
  pub shared_at : Time

pub record StatsResponse : Type 0 where
  pub total_views : Int64
  pub unique_today : Int64

-- What the page shows: a view, or one of three notices.
pub data Shown : Type 0 where
  view_page : SharedView → Shown
  unknown_page : Shown
  gone_page : Shown
  trouble_page : Shown

-- An error has a code and perhaps a message. `html` is the page with the cookie that it sets, and
-- `health` a status with perhaps an error.
pub data Body : Type 0 where
  failure : Bytes → Bytes → Body
  of_link : LinkResponse → Body
  of_view : SharedViewResponse → Body
  of_stats : StatsResponse → Body
  html : Shown → Option Bytes → Body
  of_token : Bytes → Time → Body
  health : Bytes → Option Bytes → Body
  metrics : Body
  no_body : Body

pub record Response : Type 0 where
  pub status : ℕ
  pub body : Body
