-- ===== src/Channel.antt =====
-- models/channel.py and models/api_types.py: the fields of a channel and of its endpoints that
-- routing reads. Display, credential, proxy and profile fields are left out.
use llm_plug.Common.{ℕ, String, Bool, Option, List}

pub data ApiType : Type 0 where
  openai_chat openai_response anthropic : ApiType

pub ApiType-discrete : Discrete ApiType
ApiType-discrete = hlevel

pub record Endpoint : Type 0 where
  pub api_type : ApiType
  pub base_url : String
  pub url_override : Option String
  pub enabled : Bool

pub record Channel : Type 0 where
  pub id : String
  pub models : List String
  pub enabled : Bool
  pub weight : ℕ
  pub priority : ℕ
  pub rate_limit_rpm : Option ℕ
  pub allow_format_conversion : Option Bool
  pub endpoints : List Endpoint
