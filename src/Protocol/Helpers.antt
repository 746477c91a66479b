-- ===== src/Protocol/Helpers.antt =====
-- api/protocol/protocol_helpers.hpp: the makers of messages, the kinds of configuration activity
-- and the readers of their answers. A string that a maker leaves unset is the empty string.
use megastructure.Common.{String, Bool, true, false}
use megastructure.Protocol.Types.{ConfigStep, Config, Message}

pub data ConfigActivityType : Type 0 where
  config_loading config_saving total_config_activity_types : ConfigActivityType

-- mss_enroll without a program name.
abbrev pub mss_enroll_result : Bool → Message
mss_enroll_result success = Message.mss_enroll success ""

abbrev pub mss_enroll : Bool → String → Message
mss_enroll success program_name = Message.mss_enroll success program_name

-- chs_enroll without a workspace path and a slave name.
abbrev pub chs_enroll_result : Bool → Message
chs_enroll_result success = Message.chs_enroll success "" ""

abbrev pub chs_enroll : Bool → String → String → Message
chs_enroll success workspace_path slave_name = Message.chs_enroll success workspace_path slave_name

abbrev pub config_load_msq : Message
config_load_msq = Message.config_msg (Config.load ConfigStep.msq)

abbrev pub config_save_msq : Message
config_save_msq = Message.config_msg (Config.save ConfigStep.msq)

abbrev pub config_load_sms_reply : Bool → Message
config_load_sms_reply success = Message.config_msg (Config.load (ConfigStep.sms success))

abbrev pub config_save_sms_reply : Bool → Message
config_save_sms_reply success = Message.config_msg (Config.save (ConfigStep.sms success))

sms_success : ConfigStep → Bool
sms_success (ConfigStep.sms success) = success
sms_success _ = false

pub config_load_sms : Config → Bool
unfolding sms_success
config_load_sms (Config.load m) = sms_success m
config_load_sms _ = false

pub config_save_sms : Config → Bool
unfolding sms_success
config_save_sms (Config.save m) = sms_success m
config_save_sms _ = false

abbrev pub config_load_chq_request : Message
config_load_chq_request = Message.config_msg (Config.load ConfigStep.chq)

abbrev pub config_save_chq_request : Message
config_save_chq_request = Message.config_msg (Config.save ConfigStep.chq)

has_chq : ConfigStep → Bool
has_chq ConfigStep.chq = true
has_chq _ = false

pub config_load_chq : Config → Bool
unfolding has_chq
config_load_chq (Config.load m) = has_chq m
config_load_chq _ = false

pub config_save_chq : Config → Bool
unfolding has_chq
config_save_chq (Config.save m) = has_chq m
config_save_chq _ = false

abbrev pub config_load_hcs : Bool → Message
config_load_hcs success = Message.config_msg (Config.load (ConfigStep.hcs success))

abbrev pub config_save_hcs : Bool → Message
config_save_hcs success = Message.config_msg (Config.save (ConfigStep.hcs success))
