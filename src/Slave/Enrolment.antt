-- ===== src/Slave/Enrolment.antt =====
-- MasterEnrollActivity and AliveTestActivity of src/slave/activitiesMaster.cpp, and HostEnrollActivity and
-- HostBufferActivity of src/slave/activitiesHost.cpp.
use megastructure.Common.{
  ℕ, Bool, true, false, String, ◌==◌, if◌then◌else◌, str_eq, Result, ok, throws,
}
use megastructure.Protocol.{Message}
use megastructure.Protocol.Helpers.{chs_enroll, chs_enroll_result}
use megastructure.Queue.{completes}
use megastructure.Slave.Hosts.{enrolleg, get_mega_client_for_eg_client}
use megastructure.Slave.Route.{Sent}
use megastructure.Slave.Shared.{get_shared_buffer_name}
use megastructure.Slave.State.{
  SlaveState, post, enroll_host, set_enrollment, set_host_map, send_master, send_host,
}

module _ (delivers : Sent → Bool) where
  unfoldable pub master_enroll_start : SlaveState → SlaveState
  unfolding send_master
  master_enroll_start s = send_master delivers (Message.smq_enroll s.name) s

  -- MasterEnrollActivity::serverMessage of the activity `a`.
  unfoldable pub master_enroll_server_message :
      ℕ → Message → SlaveState → Result (SlaveState × Bool)
  unfolding set_enrollment post
  master_enroll_server_message a (Message.mss_enroll success program) s =
      elim (set_enrollment success s) [
        | throws ↦ throws
        | ok s' ↦
            let named : SlaveState =
              if success then record s' { active_program_name = program } else s' in
            ok (post (completes a) named, true)
      ]
  master_enroll_server_message a _ s = ok (s, false)

  -- AliveTestActivity::serverMessage
  unfoldable pub alive_test_server_message : Message → SlaveState → SlaveState × Bool
  unfolding send_master
  alive_test_server_message (Message.msq_alive name) s =
      (send_master delivers (Message.sms_alive (str_eq name s.name)) s, true)
  alive_test_server_message _ s = (s, false)

  -- HostEnrollActivity::clientMessage. An enrolment of an eg client is not consumed.
  unfoldable pub host_enroll_client_message : ℕ → Message → SlaveState → Result (SlaveState × Bool)
  unfolding enroll_host set_host_map send_host enrolleg get_mega_client_for_eg_client
  host_enroll_client_message client (Message.hcq_enroll process unique_id) s =
      let (hosts, enrolled) = enroll_host process client unique_id s.slave.hosts in
      let s' = set_host_map hosts s in
      let answer =
        if enrolled then chs_enroll true s.workspace s.name else chs_enroll_result false in
      ok ((send_host delivers answer client s').0, true)
  host_enroll_client_message client (Message.hcq_enrolleg unique_id) s =
      let (hosts, enrolled) = enrolleg client unique_id s.slave.hosts in
      let s' = set_host_map hosts s in
      let mega = get_mega_client_for_eg_client client hosts in
      if enrolled
      then (if mega == 0
          then throws
          else ok ((send_host delivers (Message.chs_enrolleg true) mega s').0, false))
      else ok (s', false)
  host_enroll_client_message client _ s = ok (s, false)

  -- HostBufferActivity::clientMessage; `unique` is what generateUniqueString answers.
  unfoldable pub host_buffer_client_message : String → ℕ → Message → SlaveState → SlaveState × Bool
  unfolding get_shared_buffer_name send_host
  host_buffer_client_message unique client (Message.hcq_buffer name size) s =
      let (shared_name, buffers) = get_shared_buffer_name unique name size s.shared_buffers in
      (
        (send_host delivers (Message.chs_buffer name shared_name) client
            (record s { shared_buffers = buffers })).0,
        true,
      )
  host_buffer_client_message unique client _ s = (s, false)
