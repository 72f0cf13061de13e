-- ===== src/System.antt =====
-- include/tpc/system and src/system: the receiver of sensor samples, the discovery of the channels,
-- the subscription, the connection, the session and the frames of the OPC UA client, and the facade TPC
-- with its frames, its test frame, its polling worker and its field worker.
pub mod FrameReceiver
pub mod Discovery
pub mod Subscription
pub mod Connection
pub mod Session
pub mod Polling
pub mod Client
pub mod Calibration
pub mod TestFrame
pub mod FieldWorker
pub mod Facade
