-- ===== src/Wire.antt =====
-- What the four processes send one another: utils/src/serialization.c, utils/src/utils.c and
-- utils/src/IOFUNCTIONS.c.
pub mod OpCodes
pub mod Buffer
pub mod Fields
pub mod Format
pub mod Requests
pub mod RequestsFormats
pub mod MovesFormats
pub mod Interfaces
pub mod InterfacesFormats
pub mod FsMessages
pub mod FsMessagesFormats
pub mod FsTransfersFormats
pub mod ControlBlock
pub mod ControlBlockFormat
pub mod Messages
pub mod RoundTrip
pub mod Texts
pub mod TextsRoundTrip
pub mod Tests
