-- ===== src/MotorGroupHold/Whole.antt =====
-- src/open_sprite_runtime/motor_group_hold.py: the frames of the `finally` block and of a whole
-- group run.
use open_sprite_runtime.Prelude.{
  ℕ, leb, all, not, sym, some, ◌≡◌, refl, ◌&&◌, String, List, [], ◌∷◌, inl, inr, length, Bool-cases,
  Member,
}
use open_sprite_runtime.Prelude.Result.{require-eq-ok, ok_injective, Result, ok, err}
use open_sprite_runtime.Prelude.Action.{
  After, After-always, Leads, >>=-Leads, reads-Leads, last_modify-Leads,
}
use open_sprite_runtime.Bytes.{Bytes}
use open_sprite_runtime.Float.{FloatOps}
use open_sprite_runtime.SocketCan.Writer.{SendOutcome}
use open_sprite_runtime.SocketCan.MitWriter.{
  get, MotorGroupMitWriter, new_group_writer, distinct_names, distinct_ids, is_empty,
}
use open_sprite_runtime.SocketCan.GroupWire.{IsStandard}
use open_sprite_runtime.SocketCan.{max_standard_id}
use open_sprite_runtime.Damiao.Command.{DamiaoFeedbackEndpoint}
use open_sprite_runtime.SingleJointHold.Session.{ShutdownRound}
use open_sprite_runtime.Dict.{set}
use open_sprite_runtime.MotorGroupHold.Session.{
  GroupSession, GroupPlan, GroupHold, disable_motor, group_begun, group_echo,
}
use open_sprite_runtime.MotorGroupHold.Supervise.{
  group_body, noted, noted_disable, disable_all, is_off, target_or, verification, verify, confirmed,
  verify_all, finish, supervise_group,
}
use open_sprite_runtime.MotorGroupHold.Trail.{
  polling, driving, stopping, GroupTrail, GroupAt, group_send_disable-At,
}
use open_sprite_runtime.MotorGroupHold.Order.{InGroupPhase, InSomePhase, group_echo-InGroupPhase}
use open_sprite_runtime.MotorGroupHold.Drive.{group_body-Leads}

module _ (F : FloatOps) (p : GroupPlan F) (names : List (String × ℕ))
    (standard : IsStandard names) where
  -- The shutdown.
  abbrev Stopping : GroupHold F → Type 0
  Stopping = InGroupPhase F p names standard stopping

  disable_motor-Stopping :
      (os : Bytes → SendOutcome) (e : DamiaoFeedbackEndpoint F)
      → Member e p.endpoints
      → Leads Stopping Stopping Stopping (disable_motor F os e.motor_name)
  unfolding disable_motor
  disable_motor-Stopping os e m = record {
    leads = λ s at.
        let now = group_send_disable-At F p names standard os e s.writer m at in
        After-always Stopping Stopping _ _ now now;
  }

  noted-Stopping :
      (r : Result (Unit {0}) × GroupHold F)
      → After (InGroupPhase F p names standard driving) (InSomePhase F p names standard) r
      → Stopping (noted F p r)
  noted-Stopping (ok a, s) at = record {
    same_names = at.same_names;
    trail = GroupTrail.stops at.trail;
  }
  noted-Stopping (err x, s) (phase, at) = record {
    same_names = at.same_names;
    trail = GroupTrail.stops at.trail;
  }

  noted_disable-Stopping :
      (r : Result (Unit {0}) × GroupHold F)
      → After Stopping Stopping r
      → Stopping (noted_disable F p r)
  noted_disable-Stopping (ok a, s) at = at
  noted_disable-Stopping (err x, s) at = at

  -- The motors of a list are of the group.
  abbrev AreMembers : List (DamiaoFeedbackEndpoint F) → Type 0
  AreMembers es = (e : DamiaoFeedbackEndpoint F) → Member e es → Member e p.endpoints

  disable_all-Stopping :
      (os : String → Bytes → SendOutcome) (es : List (DamiaoFeedbackEndpoint F)) (s : GroupHold F)
      → AreMembers es
      → Stopping s
      → Stopping (disable_all F p os es s)
  unfolding disable_all
  disable_all-Stopping os [] s h at = at
  disable_all-Stopping os (e ∷ rest) s h at =
      disable_all-Stopping os rest _ (λ x m. h x (inr m))
        (noted_disable-Stopping (disable_motor F (os e.motor_name) e.motor_name s)
          ((disable_motor-Stopping (os e.motor_name) e (h e (inl refl))).leads s at))

  verification-Leads :
      (e : DamiaoFeedbackEndpoint F) (r : ShutdownRound)
      → Member e p.endpoints
      → Leads Stopping Stopping (InSomePhase F p names standard) (verification F p e r)
  unfolding verification
  verification-Leads e r m =
      >>=-Leads (disable_motor F r.disable_os e.motor_name) _
        (record {
          leads = λ s at.
              let now = group_send_disable-At F p names standard r.disable_os e s.writer m at in
              After-always Stopping (InSomePhase F p names standard) _ _ now (stopping, now);
        })
        λ done.
          reads-Leads (λ s. ok (target_or F p (get s.targets e.motor_name))) _
            (λ s at. (stopping, at))
            λ position.
              >>=-Leads (group_echo F e position r.poll) _
                (group_echo-InGroupPhase F p names standard e stopping position r.poll
                  (λ id frame wire known for old.
                    GroupTrail.verified
                      (record { endpoint = e; member = m; id = id; addressed = known; for = for })
                      old))
                λ feedback.
                  last_modify-Leads
                    (λ s. record s {
                      final_status = set s.final_status e.motor_name (some feedback.status_name);
                    })
                    (λ s at. at)

  either :
      (r : Result (Unit {0}) × GroupHold F)
      → After Stopping (InSomePhase F p names standard) r
      → Stopping r.1
  either (ok a, s) at = at
  either (err x, s) (phase, at) = record {
    same_names = at.same_names;
    trail = GroupTrail.stops at.trail;
  }

  verify-Stopping :
      (e : DamiaoFeedbackEndpoint F) (rounds : List ShutdownRound) (s : GroupHold F)
      → Member e p.endpoints
      → Stopping s
      → Stopping (verify F p e rounds s)
  unfolding verify
  verify-Stopping e [] s m at = at
  verify-Stopping e (r ∷ rest) s m at =
      elim (Bool-cases (is_off F p (get s.final_status e.motor_name))) [
        | inl off ↦ rw off at
        | inr on ↦ rw on (
            verify-Stopping e rest (verification F p e r s).1 m
              (either (verification F p e r s) ((verification-Leads e r m).leads s at)))
      ]

  confirmed-Stopping :
      (name : String) (s : GroupHold F) → Stopping s → Stopping (confirmed F p name s)
  unfolding confirmed
  confirmed-Stopping name s at = elim (Bool-cases (is_off F p (get s.final_status name))) [
    | inl off ↦ rw off at
    | inr on ↦ rw on at
  ]

  verify_all-Stopping :
      (rounds : String → List ShutdownRound) (es : List (DamiaoFeedbackEndpoint F))
      (s : GroupHold F)
      → AreMembers es
      → Stopping s
      → Stopping (verify_all F p rounds es s)
  unfolding verify_all
  verify_all-Stopping rounds [] s h at = at
  verify_all-Stopping rounds (e ∷ rest) s h at =
      verify_all-Stopping rounds rest _ (λ x m. h x (inr m))
        (confirmed-Stopping e.motor_name _
          (verify-Stopping e (rounds e.motor_name) s (h e (inl refl)) at))

  supervise_group-Stopping :
      (session : GroupSession F) (writer : MotorGroupMitWriter)
      → GroupAt F p names polling writer
      → Stopping (supervise_group F p session writer)
  unfolding supervise_group finish
  supervise_group-Stopping session writer at =
      let s0 = noted F p (group_body F p session (group_begun F p.endpoints writer)) in
      let s1 = disable_all F p (session.disables 0) p.endpoints s0 in
      let s2 = disable_all F p (session.disables 1) p.endpoints s1 in
      let all_members : AreMembers p.endpoints = λ e m. m in
      let start =
        (group_body-Leads F p names standard session).leads (group_begun F p.endpoints writer) at in
      let d0 = noted-Stopping (group_body F p session (group_begun F p.endpoints writer)) start in
      let d1 = disable_all-Stopping (session.disables 0) p.endpoints s0 all_members d0 in
      let d2 = disable_all-Stopping (session.disables 1) p.endpoints s1 all_members d1 in
      let d3 = disable_all-Stopping (session.disables 2) p.endpoints s2 all_members d2 in
      verify_all-Stopping session.verifications p.endpoints _ all_members d3

-- Whatever the operating system does with each frame, whatever is received and whatever is raised, the
-- frames of a group run with a new writer are a trail of its phases that ends in its shutdown: zero-gain
-- polls, then enable frames, then commands, each encoded inside the soft limits and the torque guard of its
-- motor, and behind these nothing but disable frames and zero-gain polls, all for motors of the group under
-- the identifiers that the writer has for them.
pub supervise_group-GroupTrail :
    (F : FloatOps) (p : GroupPlan F) (session : GroupSession F) (interface : String)
    (names : List (String × ℕ)) {writer : MotorGroupMitWriter}
    → new_group_writer interface names ≡ ok writer
    → GroupTrail F p names stopping (supervise_group F p session writer).writer.wire
unfolding new_group_writer
supervise_group-GroupTrail F p session interface names {writer} h =
    let (_, h1) = require-eq-ok (leb 2 (length names) && leb (length names) 8) _ _ h in
    let (_, h2) = require-eq-ok (distinct_names names) _ _ h1 in
    let (_, h3) = require-eq-ok (distinct_ids names) _ _ h2 in
    let (standard, made) =
      require-eq-ok (all (λ e. not (is_empty e.0) && leb e.1 max_standard_id) names) _ _ h3 in
    (supervise_group-Stopping F p names standard session writer (
      rw (sym (ok_injective made)) (record { same_names = refl; trail = GroupTrail.begins }))).trail
