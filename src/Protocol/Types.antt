-- ===== src/Protocol/Types.antt =====
-- src/protocol/megastructure.proto. A `oneof` is a data type with `unset` for none of its fields.
-- `bytes` are lists of numbers below 256.
use megastructure.Common.{ℕ, String, Bool, List}

abbrev pub Bytes : Type 0
Bytes = List ℕ

pub data Operation : Type 0 where
  read : Operation
  write : Bytes → Operation
  lock : Bool → Operation
  unlock : Operation
  unset : Operation

pub record Request : Type 0 where
  pub coordinator : ℕ
  pub host : ℕ
  pub operation : Operation

pub record Response : Type 0 where
  pub coordinator : ℕ
  pub host : ℕ
  pub value : Bytes

pub record ErrorReply : Type 0 where
  pub coordinator : ℕ
  pub host : ℕ

pub data Content : Type 0 where
  request : Request → Content
  response : Response → Content
  error : ErrorReply → Content
  event : Bytes → Content
  unset : Content

-- `type` is an int32 of the source that indexes tables; types are the indices of concrete
-- elements, which are never negative.
pub record EgMsg : Type 0 where
  pub type : ℕ
  pub instance_id : ℕ
  pub cycle : ℕ
  pub content : Content

-- Config.Load and Config.Save have the same four forms.
pub data ConfigStep : Type 0 where
  msq : ConfigStep
  sms : Bool → ConfigStep
  chq : ConfigStep
  hcs : Bool → ConfigStep
  unset : ConfigStep

pub data Config : Type 0 where
  load : ConfigStep → Config
  save : ConfigStep → Config
  unset : Config

pub data Message : Type 0 where
  smq_enroll : String → Message
  mss_enroll : Bool → String → Message
  msq_alive : String → Message
  sms_alive : Bool → Message
  hcq_enroll : String → String → Message
  chs_enroll : Bool → String → String → Message
  hcq_enrolleg : String → Message
  chs_enrolleg : Bool → Message
  chq_alive : String → Message
  hcs_alive : Bool → Message
  msq_load : String → Message
  sms_load : Bool → Message
  chq_load : String → String → Message
  hcs_load : Bool → Message
  hcq_buffer : String → ℕ → Message
  chs_buffer : String → String → Message
  config_msg : Config → Message
  eg_msg : EgMsg → Message
  unset : Message
