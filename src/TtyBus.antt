-- ===== src/TtyBus.antt =====
-- sw/host/ttybus.cpp: the debugging bus over a serial line.
pub mod Code
pub mod State
pub mod Address
pub mod Receiver
pub mod Codewords
pub mod AddressWords
pub mod AddressLaws
pub mod ReadCommand
pub mod Read
pub mod Write
pub mod WriteTable
pub mod WriteWords
pub mod ReadCodes
pub mod Collect
pub mod Reply
pub mod ReadWord
pub mod ReadReplies
pub mod ReadMarks
pub mod ReadAddress
pub mod ReadSequence
pub mod ReadVector
pub mod ReadAnswer
pub mod ReadReturns
pub mod ReadErrors
pub mod Wait
pub mod ReadRequests
pub mod ReadFrame
pub mod ReadQuiet
pub mod WriteRounds
pub mod WriteLaws
pub mod WriteMethods
pub mod WriteReturns
