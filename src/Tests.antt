-- ===== src/Tests.antt =====
-- Concrete servers, and the theorems at concrete inputs.
mod WorkerServers
mod Server
mod Samples
mod SampleTexts
mod MediaWitnesses
mod Worker
mod ProcessingWitnesses
mod Tokens
mod AuthWitnesses
mod StreamWitnesses
mod Relay
mod RelayWitnesses
mod LogWitnesses
mod AccountWitnesses
mod HttpWitnesses
