-- ===== src/Lib.antt =====
-- A model of the core of the open_sprite_runtime, the Python runtime between a walking policy and
-- the motors of a humanoid robot.
--
-- The runtime reads motor feedback and registers over SocketCAN, reads an IMU over a serial port,
-- exchanges packets with a native control loop, and sends MIT commands to Damiao motors where a
-- safety supervisor permits it. Which file models which part (paths from the root of the repository):
--   Safety            src/open_sprite_runtime/safety.py: SafetyState.blockers and require_armed,
--                     SafetySupervisor.evaluate and clear_latched_faults. A set of faults is a
--                     predicate on their type; a report lists it in alphabetical order.
--   SocketCan         src/open_sprite_runtime/socketcan.py: the frame layouts, the timestamps and
--                     receive; Writer has the zero-gain poller, the register readers and the
--                     set-zero writer, MitWriter the two MIT writers, Open the open methods as the
--                     socket calls that they make. A writer's state has the frames that it handed to
--                     its socket; what the socket does with each is an argument.
--   Damiao            src/open_sprite_runtime/damiao.py: Command has the ranges, the checks and the
--                     encoder, Profile the motor profile, Decode and Decoder the feedback.
--   RxAudit           src/open_sprite_runtime/damiao.py: the receive-only audit, in Report its report.
--   DamiaoRegisters   src/open_sprite_runtime/damiao_registers.py: requests and responses, and in
--                     Collect the collection loops; what each attempt receives until its deadline is
--                     a finite list.
--   Telemetry         src/open_sprite_runtime/telemetry.py: limits, samples and banks.
--   Yahboom           src/open_sprite_runtime/yahboom_imu.py: the frames and the stream decoder.
--   ImuReceive        src/open_sprite_runtime/imu_receive.py: the bounded drain of the serial port.
--   Ipc               src/open_sprite_runtime/native_ipc.py: the name hash and the two packets.
--   SingleJointHold   src/open_sprite_runtime/single_joint_hold.py: Session has a run's environment and
--                     its locals, Supervise the try and finally blocks that the hold and the motion
--                     share, Runs the hold, Trajectory and Motion the motion. An action takes the
--                     locals with the writer, and returns or raises with what they have become.
--   MotorGroupHold    src/open_sprite_runtime/motor_group_hold.py: Session and Supervise in the same
--                     way for a group of motors, Groups the checks and the report, Frozen the runs.
-- Prelude, Bytes, Dict and Float hold what these share: results with Python's exceptions, integers, the
-- layouts of the struct module, and floats. Tests runs the theorems at concrete inputs.
--
-- The encoder of Damiao hands its command to the writers of SocketCan, which compare its motor,
-- interface and identifier with their own; the decoder of Damiao takes the frames that SocketCan
-- receives; the drain of ImuReceive feeds the decoder of Yahboom; a profile of Damiao takes its
-- torque limit from Telemetry; the collection of DamiaoRegisters sends by SocketCan; the
-- holds encode by Damiao, send by the MIT writers of SocketCan and decode what is received.
--
-- Floats: a Python float is a type with operations that every definition takes as a parameter, since
-- IEEE arithmetic is not part of the repository. Where a result rests on rounding, the laws that it
-- uses are in Float.FloatLaws: correctly rounded operations on finite numbers keep the order of the
-- exact ones. Tests.Extended is an instance with an infinity and a NaN. In Ipc a double is its
-- 64-bit pattern. numpy.interp is a parameter of Telemetry.
--
-- Fuel: the loop of the stream decoder runs on fuel of one more than the bytes in the buffer, and
-- each round that does not break takes a byte off the buffer. The drain makes the eight rounds of the
-- source, and the register collection the retries of its argument. The holds need no fuel: a run that
-- ends is a finite session, the passes of its control loop, the frames received until each deadline
-- and the rounds of the shutdown that the clock leaves time for.
--
-- Not modelled: the audits of interface snapshots and the probe loops of the CAN files, the
-- commissioning loops, the checks of JSON inventories, the policy clients, the command line and the
-- viewer, the native code in C++ with its vendored driver, tools and tests. Messages of exceptions
-- are their constant part. Python's type tests of arguments have no counterpart, as the model is typed.
pub mod Prelude
pub mod Bytes
pub mod Float
pub mod Ipc
pub mod Yahboom
pub mod Damiao
pub mod SocketCan
pub mod Safety
pub mod Tests
pub mod Telemetry
pub mod DamiaoRegisters
pub mod ImuReceive
pub mod Dict
pub mod RxAudit
pub mod SingleJointHold
pub mod MotorGroupHold
